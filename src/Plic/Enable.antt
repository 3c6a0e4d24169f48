-- ===== src/Plic/Enable.antt =====
-- `plic_enable` sets one bit of the enable words and one priority.
use virtio_pci_simple_driver.Prelude.{
  ℕ, ◌+◌, ◌-◌, ◌*◌, ◌/◌, ◌%◌, ◌^◌, ◌<◌, ◌≡◌, arith, bit_or, ◌==◌, if◌then◌else◌, u32, ◌∷◌,
}
use virtio_pci_simple_driver.Prelude.Bits.{bit, bit_or-lt}
use virtio_pci_simple_driver.Prelude.Tables.{bit-set, pow-lt_word}
use virtio_pci_simple_driver.Bus.{Bus, World, load, store}
use virtio_pci_simple_driver.Plic.{enable, priority, enable_base}

-- `plic_enable` on an interrupt below 1024, whatever the controller answers: it sets the interrupt's
-- priority to 1, reads the enable word that has the interrupt, and writes that word back with the
-- interrupt's bit set and the other 31 as they were read. It makes no other access.
pub enable_sets_bit :
    {D : Type 0} (bus : Bus D) (irq : ℕ) (σ : World D)
    → irq < 1024
    → (old new : ℕ) × ((enable bus irq σ).1.log
        ≡ store 32 (enable_base + 4 * (irq / 32)) new
          ∷ load 32 (enable_base + 4 * (irq / 32)) old
          ∷ store 32 (priority + irq * 4) 1
          ∷ σ.log)
      × ((k : ℕ) → k < 32 → bit k new ≡ (if k == irq % 32 then 1 else bit k old))
unfolding enable
enable_sets_bit bus irq σ small =
    let place : u32 (enable_base + 4 * (irq / 32)) ≡ enable_base + 4 * (irq / 32) = omega arith in
    let shift : irq - 32 * (irq / 32) ≡ irq % 32 = omega arith in
    let old =
      (bus.answer 32 (enable_base + 4 * (irq / 32)) (bus.accept 32 (priority + irq * 4) 1 σ.dev)).0
      % 2 ^ 32 in
    let new = bit_or old (2 ^ (irq % 32)) in
    let whole : new % 2 ^ 32 ≡ new = omega (
      arith,
      bit_or-lt 32 old (2 ^ (irq % 32)) (omega arith) (pow-lt_word (irq % 32) (omega arith)),
    ) in
    (old, new, rw (place, shift, whole), λ k h. bit-set (irq % 32) k old (omega arith) h)
