-- ===== src/Trap/Around.antt =====
-- A trap around the handler that is chosen in it.
use virtio_pci_simple_driver.Prelude.{
  ℕ, ◌+◌, ◌%◌, ◌^◌, ◌≡◌, inl, inr, refl, ◌==◌, Bool-cases, if◌then◌else◌, ◌∷◌,
}
use virtio_pci_simple_driver.Bus.{Bus, World, load}
use virtio_pci_simple_driver.Plic.{claim_addr, claim, complete}
use virtio_pci_simple_driver.VirtioPci.{Hw}
use virtio_pci_simple_driver.Blk.{Blk, Heap, Run, ok}
use virtio_pci_simple_driver.Trap.{
  handle_trap, handle_external_trap, dispatch, acknowledge, return_to,
}

-- The world in which the controller has answered `r`.
abbrev pub claimed : {D : Type 0} (bus : Bus D) (r : ℕ) → World D → World D
claimed bus r σ = record {
  dev = (bus.answer 32 claim_addr σ.dev).1;
  log = load 32 claim_addr r ∷ σ.log;
}

-- The trap around the handler that is chosen for `r`.
module _ {D : Type 0} (bus : Bus D) (hw : Hw) (base n sepc r : ℕ) (blk : Blk) (heap : Heap) where
  unfoldable pub handled : World D → Run (Blk × Heap) × World D
  handled σ = dispatch bus hw base n r blk heap (claimed bus r σ)

  pub around :
      (σ : World D) (s : Blk × Heap)
      → (claim bus σ).0 ≡ r
      → (handled σ).0 ≡ ok s
      → let (out, τ) = handle_trap bus hw base n (2 ^ 63 + 9) sepc blk heap σ in
        (out ≡ ok (sepc, s))
        × (τ.dev ≡ (
            if r == 0
            then (handled σ).1.dev
            else bus.accept 32 claim_addr (r % 2 ^ 32) (handled σ).1.dev))
  unfolding handled handle_trap handle_external_trap return_to acknowledge claim complete
  around σ s answer e = elim (Bool-cases (r == 0)) [
    | inl none_waits ↦ rw (answer, e, none_waits) (refl, refl)
    | inr some_waits ↦ rw (answer, e, some_waits) (refl, refl)
  ]
