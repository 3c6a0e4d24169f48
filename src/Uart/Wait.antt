-- ===== src/Uart/Wait.antt =====
-- `UartPutc` on a transmitter that is busy for a while.
use virtio_pci_simple_driver.Prelude.{
  ℕ, zero, suc, ◌+◌, ◌<◌, ◌%◌, ◌^◌, ◌≡◌, refl, ap, ◌∙◌, arith, bit_and, some, List, [], ◌∷◌, ◌++◌,
}
use virtio_pci_simple_driver.Bus.{Bus, World, read}
use virtio_pci_simple_driver.Uart.{putc, lsr_offset, thr_offset, lsr_thre}

-- A 16550 at `base` whose transmitter shows itself busy to the next `wait d` reads of the line status, and
-- free from then on; `tx` is what it has been given to send, the latest last. Nothing is said of a byte that is
-- stored while it is busy: it may be lost.
pub record IsBusyUart {D : Type 0} (bus : Bus D) (base : ℕ) (wait : D → ℕ) (tx : D → List ℕ)
    : Type 0 where
  pub busy :
      (d : D) (k : ℕ)
      → wait d ≡ suc k
      → let (a, d') = bus.answer 8 (base + lsr_offset) d in
        (bit_and (a % 2 ^ 8) lsr_thre ≡ 0) × (wait d' ≡ k) × (tx d' ≡ tx d)
  pub free :
      (d : D)
      → wait d ≡ 0
      → let (a, d') = bus.answer 8 (base + lsr_offset) d in
        (bit_and (a % 2 ^ 8) lsr_thre ≡ lsr_thre) × (wait d' ≡ 0) × (tx d' ≡ tx d)
  pub send :
      (d : D) (c : ℕ) → wait d ≡ 0 → tx (bus.accept 8 (base + thr_offset) c d) ≡ tx d ++ (c ∷ [])

module _ {D : Type 0} (bus : Bus D) (base c : ℕ) (wait : D → ℕ) (tx : D → List ℕ)
    (uart : IsBusyUart bus base wait tx) where
  -- The same, by the reads that are left.
  putc_after :
      (n : ℕ) (σ : World D) (k : ℕ)
      → wait σ.dev ≡ k
      → k < n
      → let (out, τ) = putc bus n base c σ in
        (out ≡ some c) × (tx τ.dev ≡ tx σ.dev ++ (c % 2 ^ 8 ∷ []))
  unfolding putc
  putc_after zero σ k e lt = elim lt [ ]
  putc_after (suc n) σ zero e lt =
      let (shown, still, kept) = uart.free σ.dev e in
      rw shown (refl, uart.send _ (c % 2 ^ 8) still ∙ ap (λ l. l ++ (c % 2 ^ 8 ∷ [])) kept)
  putc_after (suc n) σ (suc k) e lt =
      let (shown, left, kept) = uart.busy σ.dev k e in
      let (out, sent) = putc_after n (read bus 8 (base + lsr_offset) σ).1 k left (omega arith) in
      rw shown (out, sent ∙ ap (λ l. l ++ (c % 2 ^ 8 ∷ [])) kept)

  -- Termination: the wait of `UartPutc` ends as soon as the transmitter is free, with more fuel than the reads
  -- for which it is still busy; the lowest byte of the character is then sent, once, and the character
  -- returned.
  pub putc-waits :
      (n : ℕ) (σ : World D)
      → wait σ.dev < n
      → let (out, τ) = putc bus n base c σ in
        (out ≡ some c) × (tx τ.dev ≡ tx σ.dev ++ (c % 2 ^ 8 ∷ []))
  putc-waits n σ enough = putc_after n σ (wait σ.dev) refl enough
