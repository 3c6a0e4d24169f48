-- ===== src/Trap/Returned.antt =====
-- What a trap that has returned can have done to the disk driver, whatever the controller and the devices answer.
use virtio_pci_simple_driver.Prelude.{
  ℕ, ◌/◌, ◌%◌, ◌^◌, ◌≡◌, ◌⊎◌, inl, inr, bit_and, ◌==◌, Bool-cases, Option, none, some,
}
use virtio_pci_simple_driver.Bus.{Bus, World}
use virtio_pci_simple_driver.Plic.{uart0_irq, pcie_irq_pinb, claim}
use virtio_pci_simple_driver.VirtioPci.{Hw, clear_isr}
use virtio_pci_simple_driver.Uart
use virtio_pci_simple_driver.Blk.{Blk, Heap, Run, ok, fault, out_of_fuel, intr, blk_intr}
use virtio_pci_simple_driver.Trap.{
  irq_s_ext, return_to, uart_isr, dispatch, acknowledge, handle_external_trap, handle_trap,
}

-- Nothing, or one run of the handler of the disk.
abbrev pub Handled : (fuel : ℕ) → Blk → Heap → Blk × Heap → Type 0
Handled fuel blk heap after = (after ≡ (blk, heap)) ⊎ (intr fuel blk heap ≡ ok after)

return_to-ok :
    (sepc sepc' : ℕ) (out : Run (Blk × Heap)) (after : Blk × Heap)
    → return_to sepc out ≡ ok (sepc', after)
    → (sepc' ≡ sepc) × (out ≡ ok after)
unfolding return_to
return_to-ok sepc sepc' (ok s) after e = (cc, cc)
return_to-ok sepc sepc' fault after e = cc
return_to-ok sepc sepc' out_of_fuel after e = cc

module _ {D : Type 0} (bus : Bus D) (hw : Hw) (uart_base n : ℕ) where
  acknowledge-ok :
      (irq : ℕ) (out : Run (Blk × Heap)) (σ : World D) (after : Blk × Heap)
      → (acknowledge bus hw uart_base n irq out σ).0 ≡ ok after
      → out ≡ ok after
  unfolding acknowledge
  acknowledge-ok irq (ok s) σ after e = elim (Bool-cases (irq == 0)) [
    | inl h ↦ rw h at e
    | inr h ↦ rw h at e
  ]
  acknowledge-ok irq fault σ after e = e
  acknowledge-ok irq out_of_fuel σ after e = e

  module _ (blk : Blk) (heap : Heap) where
    echo-ok :
        (done : Option (Unit {0})) (after : Blk × Heap)
        → (elim done [ none ↦ out_of_fuel | some _ ↦ ok (blk, heap) ]) ≡ ok after
        → after ≡ (blk, heap)
    echo-ok none after e = cc
    echo-ok (some u) after e = cc

    dispatch-ok :
        (irq : ℕ) (σ : World D) (after : Blk × Heap)
        → (dispatch bus hw uart_base n irq blk heap σ).0 ≡ ok after
        → Handled n blk heap after
    unfolding dispatch uart_isr blk_intr clear_isr
    dispatch-ok irq σ after e = elim (Bool-cases (irq == uart0_irq)) [
      | inl h ↦ inl (echo-ok (Uart.isr bus n uart_base σ).0 after (rw h at e))
      | inr h ↦
          let e' = rw h at e in
          elim (Bool-cases (irq == pcie_irq_pinb)) [
            | inl h' ↦ inr (rw h' at e')
            | inr h' ↦ let same = rw h' at e' in inl cc
          ]
    ]

    -- A trap that has come back, of whatever cause: it is back where it was, and has run the disk's handler once
    -- or left the driver alone.
    pub handle_trap-ok :
        (scause sepc sepc' : ℕ) (σ : World D) (after : Blk × Heap)
        → (handle_trap bus hw uart_base n scause sepc blk heap σ).0 ≡ ok (sepc', after)
        → (sepc' ≡ sepc) × Handled n blk heap after
    unfolding handle_trap handle_external_trap claim
    handle_trap-ok scause sepc sepc' σ after e = elim (Bool-cases (scause / 2 ^ 63 % 2 == 0)) [
      | inl h ↦ let never = rw h at e in cc
      | inr h ↦
          let e' = rw h at e in
          elim (Bool-cases (bit_and scause 0xFF == irq_s_ext)) [
            | inl h' ↦
                let e'' = rw h' at e' in
                let (back, out) = return_to-ok sepc sepc' _ after e'' in
                let irq = (claim bus σ).0 in
                let ran = dispatch bus hw uart_base n irq blk heap (claim bus σ).1 in
                (
                  back,
                  dispatch-ok irq (claim bus σ).1 after (acknowledge-ok irq ran.0 ran.1 after out),
                )
            | inr h' ↦ let same = rw h' at e' in (cc, inl cc)
          ]
    ]
