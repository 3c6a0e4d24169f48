-- ===== src/Aplic/Enable.antt =====
-- Which registers `aplic_enable_irq` writes.
use virtio_pci_simple_driver.Prelude.{
  ℕ, ◌+◌, ◌-◌, ◌*◌, ◌/◌, ◌%◌, ◌^◌, ◌<◌, ◌≡◌, refl, arith, bit_or, ◌==◌, Bool-cases, inl, inr,
  if◌then◌else◌, ◌∷◌,
}
use virtio_pci_simple_driver.Bus.{Bus, World, store}
use virtio_pci_simple_driver.Prelude.Bits.{zero-bit_or}
use virtio_pci_simple_driver.Prelude.Tables.{pow-lt_word}
use virtio_pci_simple_driver.Aplic.{
  enable_irq, get_addr, set_target_msi, set_target_direct, set_sourcecfg, set_ie, sourcecfg, setie,
  clrie, target, dm_msi,
}

-- `aplic_enable_irq` on interrupts 1 to 1023 makes three stores, at the offsets that the file
-- names: the target (the interrupt's own number for messages, priority 1 otherwise), the source
-- as level-high, and then the interrupt's bit alone in its word of the set-enable registers, or
-- of the clear-enable ones.
pub enable_irq-stores :
    {D : Type 0} (bus : Bus D) (aplic_mode dm_mode irq enable : ℕ) (σ : World D)
    → 0 < irq
    → irq < 1024
    → let aplic = get_addr aplic_mode in
      (enable_irq bus aplic_mode dm_mode irq enable σ).1.log
      ≡ store 32 (aplic + (if enable == 0 then clrie else setie) + 4 * (irq / 32)) (2 ^ (irq % 32))
        ∷ store 32 (aplic + sourcecfg + 4 * (irq - 1)) 6
        ∷ store 32 (aplic + target + 4 * (irq - 1)) (if dm_mode == dm_msi then irq else 1)
        ∷ σ.log
unfolding enable_irq set_target_msi set_target_direct set_sourcecfg set_ie
enable_irq-stores bus aplic_mode dm_mode irq enable σ low high =
    let word : 2 ^ (irq % 32) % 2 ^ 32 ≡ 2 ^ (irq % 32) =
      omega (arith, pow-lt_word (irq % 32) (omega arith)) in
    let own : bit_or 0 irq % 2 ^ 32 ≡ irq = omega (arith, zero-bit_or irq) in
    elim (Bool-cases (dm_mode == dm_msi)) [
      | inl e ↦ elim (Bool-cases (enable == 0)) [
        | inl f ↦ rw (e, f, word, own) refl
        | inr f ↦ rw (e, f, word, own) refl
      ]
      | inr e ↦ elim (Bool-cases (enable == 0)) [
        | inl f ↦ rw (e, f, word) refl
        | inr f ↦ rw (e, f, word) refl
      ]
    ]
