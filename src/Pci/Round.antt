-- ===== src/Pci/Round.antt =====
-- One round of the BAR loop of `pci_device_probe`, by the kind of the BAR.
use native.Mathlib.Nat.{mod-mod_of_dvd, dvd_of_mod-eq-zero, mod-le}
use virtio_pci_simple_driver.Prelude.{ℕ, ◌+◌, ◌-◌, ◌/◌, ◌%◌, ◌^◌, ◌<◌, ◌≡◌, refl, ◌∙◌, arith, ◌∷◌}
use virtio_pci_simple_driver.Prelude.Bits.{bit_and_one, bit_and_four, bit_and_fifteen}
use virtio_pci_simple_driver.Prelude.Pages.{page_up}
use virtio_pci_simple_driver.Bus.{Bus, World, load}
use virtio_pci_simple_driver.Pci.{word, pcie0_mmio, assign_bar32, assign_bar, bar_size32}
use virtio_pci_simple_driver.Pci.Bars.{Shape, fixed, masked, whole, value, HasBars, IsBarSize}
use virtio_pci_simple_driver.Pci.Assign.{value-flags, raw_there, assign_bar64-lem, assign_bar32-lem}

module _ {D : Type 0} {bus : Bus D} {base : ℕ} {shape : ℕ → Shape}
    (has : HasBars bus base shape) where
  -- What one round reads first.
  first_read :
      (i : ℕ) (σ : World D) (v : ℕ)
      → i < 6
      → value (shape i) (has.raw i σ.dev) ≡ v
      → (bus.answer 32 (word base (4 + i)) σ.dev).0 % 2 ^ 32 ≡ v
  first_read i σ v at_i e = has.reads i σ.dev at_i ∙ e

  -- A round at a register that reads 0.
  pub assign_bar-absent :
      (i s_off : ℕ) (σ : World D)
      → i < 6
      → shape i ≡ fixed 0
      → let (out, τ) = assign_bar bus base i s_off σ in
        (out ≡ (i + 1, s_off)) × ((k : ℕ) → k < i → has.raw k τ.dev ≡ has.raw k σ.dev)
  unfolding assign_bar assign_bar32 bar_size32
  assign_bar-absent i s_off σ at_i e =
      let d0 : D = (bus.answer 32 (word base (4 + i)) σ.dev).1 in
      let d1 : D = bus.accept 32 (word base (4 + i)) 0xffff_ffff d0 in
      let first : (bus.answer 32 (word base (4 + i)) σ.dev).0 % 2 ^ 32 ≡ 0 =
        first_read i σ 0 at_i (rw e refl) in
      let again : (bus.answer 32 (word base (4 + i)) d1).0 % 2 ^ 32 ≡ 0 =
        has.reads i d1 at_i ∙ rw e refl in
      rw (first, again)
        (
          refl,
          λ k below.
              has.read_keeps i k d1
              ∙ raw_there has i 0xffff_ffff k d0 (omega arith)
              ∙ has.read_keeps i k σ.dev,
        )

  -- A round at an I/O BAR.
  pub assign_bar-ports :
      (i s_off sz flags : ℕ) (σ : World D)
      → i < 6
      → shape i ≡ masked sz flags
      → sz % 2 ≡ 0
      → flags % 2 ≡ 1
      → let (out, τ) = assign_bar bus base i s_off σ in
        (out ≡ (i + 1, s_off)) × ((k : ℕ) → k < i → has.raw k τ.dev ≡ has.raw k σ.dev)
  unfolding assign_bar
  assign_bar-ports i s_off sz flags σ at_i e even odd =
      let r : ℕ = has.raw i σ.dev in
      let first : (bus.answer 32 (word base (4 + i)) σ.dev).0 % 2 ^ 32 ≡ r - r % sz + flags =
        first_read i σ _ at_i (rw e refl) in
      let low : r % sz % 2 ≡ r % 2 = mod-mod_of_dvd 2 r (dvd_of_mod-eq-zero 2 even) in
      let io : (r - r % sz + flags) % 2 ≡ 1 = omega (arith, low, odd, mod-le r sz) in
      rw (first, bit_and_one, io) (refl, λ k below. has.read_keeps i k σ.dev)

  -- A round at a 32-bit BAR.
  pub assign_bar-mem32 :
      (i s_off sz flags : ℕ) (σ : World D)
      → i < 6
      → shape i ≡ masked sz flags
      → IsBarSize sz
      → flags < 16
      → flags % 8 ≡ 0
      → s_off % 4096 ≡ 0
      → s_off + page_up sz < 2 ^ 62
      → let (out, τ) = assign_bar bus base i s_off σ in
        (out ≡ (i + 1, s_off + page_up sz))
        × (has.raw i τ.dev ≡ flags + (pcie0_mmio + s_off) % 2 ^ 32)
        × ((k : ℕ) → k < i → has.raw k τ.dev ≡ has.raw k σ.dev)
  unfolding assign_bar
  assign_bar-mem32 i s_off sz flags σ at_i e size small kind page room =
      let v : ℕ = value (masked sz flags) (has.raw i σ.dev) in
      let first : (bus.answer 32 (word base (4 + i)) σ.dev).0 % 2 ^ 32 ≡ v =
        first_read i σ _ at_i (rw e refl) in
      let low : v % 16 ≡ flags = value-flags sz flags (has.raw i σ.dev) size small in
      let not_io : v % 2 ≡ 0 = omega (arith, low, kind) in
      let not_64 : v / 4 % 2 ≡ 0 = omega (arith, low, kind) in
      let after : World D = record {
        dev = (bus.answer 32 (word base (4 + i)) σ.dev).1;
        log = load 32 (word base (4 + i)) v ∷ σ.log;
      } in
      let done = assign_bar32-lem has i s_off sz flags after at_i e size small page room in
      rw (first, bit_and_one v, bit_and_four v, bit_and_fifteen v, not_io, not_64, low)
        (done.0, done.1, λ k below. done.2 k (omega arith) ∙ has.read_keeps i k σ.dev)

  -- A round at a 64-bit BAR.
  pub assign_bar-mem64 :
      (i s_off sz flags : ℕ) (σ : World D)
      → i + 1 < 6
      → shape i ≡ masked sz flags
      → shape (i + 1) ≡ whole
      → IsBarSize sz
      → flags < 16
      → flags % 8 ≡ 4
      → s_off % 4096 ≡ 0
      → s_off + page_up sz < 2 ^ 62
      → let (out, τ) = assign_bar bus base i s_off σ in
        (out ≡ (i + 2, s_off + page_up sz))
        × (has.raw i τ.dev ≡ flags + (pcie0_mmio + s_off) % 2 ^ 32)
        × (has.raw (i + 1) τ.dev ≡ (pcie0_mmio + s_off) / 2 ^ 32)
        × ((k : ℕ) → k < i → has.raw k τ.dev ≡ has.raw k σ.dev)
  unfolding assign_bar
  assign_bar-mem64 i s_off sz flags σ pair e e' size small kind page room =
      let v : ℕ = value (masked sz flags) (has.raw i σ.dev) in
      let first : (bus.answer 32 (word base (4 + i)) σ.dev).0 % 2 ^ 32 ≡ v =
        first_read i σ _ (omega arith) (rw e refl) in
      let low : v % 16 ≡ flags = value-flags sz flags (has.raw i σ.dev) size small in
      let not_io : v % 2 ≡ 0 = omega (arith, low, kind) in
      let is_64 : v / 4 % 2 ≡ 1 = omega (arith, low, kind) in
      let after : World D = record {
        dev = (bus.answer 32 (word base (4 + i)) σ.dev).1;
        log = load 32 (word base (4 + i)) v ∷ σ.log;
      } in
      let done = assign_bar64-lem has i s_off sz flags after pair e e' size small page room in
      rw (first, bit_and_one v, bit_and_four v, bit_and_fifteen v, not_io, is_64, low)
        (
          done.0,
          done.1,
          done.2,
          λ k below. done.3 k (omega arith) (omega arith) ∙ has.read_keeps i k σ.dev,
        )
