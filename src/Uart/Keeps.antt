-- ===== src/Uart/Keeps.antt =====
-- What no access to the console changes, its interrupt handler does not change.
use virtio_pci_simple_driver.Prelude.{
  ℕ, zero, suc, ◌+◌, ◌%◌, ◌^◌, ◌<◌, ◌≡◌, inl, inr, refl, ◌∙◌, arith, bit_and, Bool, ◌==◌,
  Bool-cases, Option, none, some, ℤ, pos, negsuc,
}
use virtio_pci_simple_driver.Bus.{Bus, World, read}
use virtio_pci_simple_driver.Uart.{
  putc, getc, isr, lsr_offset, lsr_thre, lsr_dr, rhr_offset, thr_offset,
}
use virtio_pci_simple_driver.Uart.Echo.{go_on, respond, isr-of}

module _ {D : Type 0} (bus : Bus D) (base : ℕ) (view : D → Bool)
    (loads : (k : ℕ) (d : D) → k < 8 → view (bus.answer 8 (base + k) d).1 ≡ view d)
    (stores : (k v : ℕ) (d : D) → k < 8 → view (bus.accept 8 (base + k) v d) ≡ view d) where
  putc-view : (n c : ℕ) (σ : World D) → view (putc bus n base c σ).1.dev ≡ view σ.dev
  unfolding putc
  putc-view zero c σ = refl
  putc-view (suc n) c σ =
      let loaded = loads lsr_offset σ.dev (omega arith) in
      let next = (read bus 8 (base + lsr_offset) σ).1 in
      elim (Bool-cases
        (bit_and ((bus.answer 8 (base + lsr_offset) σ.dev).0 % 2 ^ 8) lsr_thre == 0)) [
          | inl e ↦ rw e (putc-view n c next ∙ loaded)
          | inr e ↦ rw e (stores thr_offset (c % 2 ^ 8) next.dev (omega arith) ∙ loaded)
        ]

  getc-view : (σ : World D) → view (getc bus base σ).1.dev ≡ view σ.dev
  unfolding getc
  getc-view σ =
      let loaded = loads lsr_offset σ.dev (omega arith) in
      let next = (read bus 8 (base + lsr_offset) σ).1 in
      elim (Bool-cases (bit_and ((bus.answer 8 (base + lsr_offset) σ.dev).0 % 2 ^ 8) lsr_dr == 0)) [
        | inl e ↦ rw e loaded
        | inr e ↦ rw e (loads rhr_offset next.dev (omega arith) ∙ loaded)
      ]

  -- One round of `UartIsr`, where the rest of them leaves them as they are.
  go_on-view :
      (n : ℕ) (sent : Option ℕ) (σ : World D)
      → ((τ : World D) → view (isr bus n base τ).1.dev ≡ view τ.dev)
      → view (go_on bus base n sent σ).1.dev ≡ view σ.dev
  unfolding go_on
  go_on-view n none σ rest = refl
  go_on-view n (some c) σ rest = rest σ

  respond-view :
      (n : ℕ) (got : ℤ) (σ : World D)
      → ((τ : World D) → view (isr bus n base τ).1.dev ≡ view τ.dev)
      → view (respond bus base n got σ).1.dev ≡ view σ.dev
  unfolding respond
  respond-view n (negsuc k) σ rest = refl
  respond-view n (pos c) σ rest =
      go_on-view n (putc bus (suc n) base c σ).0 (putc bus (suc n) base c σ).1 rest
      ∙ putc-view (suc n) c σ

  pub isr-view : (n : ℕ) (σ : World D) → view (isr bus n base σ).1.dev ≡ view σ.dev
  isr-view zero σ = unfold isr in refl
  isr-view (suc n) σ =
      rw (isr-of bus base n σ _ refl)
        (respond-view n (getc bus base σ).0 (getc bus base σ).1 (λ τ. isr-view n τ) ∙ getc-view σ)
