-- ===== src/VirtioPci/Features.antt =====
-- The two 32-bit windows on the 64-bit feature words.
use virtio_pci_simple_driver.Prelude.{
  ℕ, ◌*◌, ◌/◌, ◌%◌, ◌^◌, ◌<◌, ◌≡◌, ◌∙◌, arith, bit_and, bit_or, u64, ◌==◌, if◌then◌else◌,
}
use virtio_pci_simple_driver.Prelude.Bits.{bit_and-low, bit_or_fields}
use virtio_pci_simple_driver.Bus.{Bus, World}
use virtio_pci_simple_driver.VirtioPci.{
  Hw, reg, driver_feature_select, driver_feature, get_driver_features, set_driver_features,
}

-- A mask of 32 ones is the remainder by 2^32.
mask32 : (a : ℕ) → bit_and a 0xffff_ffff ≡ a % 2 ^ 32
mask32 a = omega (arith, bit_and-low 32 a)

-- The two halves of a word, shifted and put together as the two functions do.
joined :
    (f : ℕ)
    → f < 2 ^ 64
    → bit_or (u64 (f / 2 ^ 32 % 2 ^ 32 % 2 ^ 32 * 2 ^ 32)) (f % 2 ^ 32 % 2 ^ 32) ≡ f
joined f small =
    let high : u64 (f / 2 ^ 32 % 2 ^ 32 % 2 ^ 32 * 2 ^ 32) ≡ f / 2 ^ 32 * 2 ^ 32 = omega arith in
    rw (high, bit_or_fields 32 (f / 2 ^ 32) (f % 2 ^ 32 % 2 ^ 32) (omega arith)) (omega arith)

-- What a device has behind `driver_feature_select` and `driver_feature`: two words of 32 bits, of
-- which the first register selects one and the second reads and writes it.
pub record HasDriverFeatures {D : Type 0} (bus : Bus D) (hw : Hw) : Type 0 where
  pub selected : D → ℕ
  pub word : ℕ → D → ℕ
  pub selects : (d : D) (v : ℕ) → selected (bus.accept 32 (reg hw driver_feature_select) v d) ≡ v
  pub select_keeps :
      (d : D) (v k : ℕ) → word k (bus.accept 32 (reg hw driver_feature_select) v d) ≡ word k d
  pub writes :
      (d : D) (v k : ℕ)
      → word k (bus.accept 32 (reg hw driver_feature) v d)
        ≡ (if k == selected d then v else word k d)
  pub reads : (d : D) → (bus.answer 32 (reg hw driver_feature) d).0 ≡ word (selected d) d
  pub read_keeps : (d : D) (k : ℕ) → word k (bus.answer 32 (reg hw driver_feature) d).1 ≡ word k d

module _ {D : Type 0} {bus : Bus D} {hw : Hw} (dev : HasDriverFeatures bus hw) where
  -- The two words after `virtio_pci_set_driver_features` are the halves of the argument.
  set_driver_features-word :
      (features : ℕ) (σ : World D)
      → let d = (set_driver_features bus hw features σ).1.dev in
        (dev.word 0 d ≡ features % 2 ^ 32) × (dev.word 1 d ≡ features / 2 ^ 32 % 2 ^ 32)
  unfolding set_driver_features
  set_driver_features-word features σ = (
    simp (dev.writes, dev.selects, dev.select_keeps, mask32) (omega arith),
    simp (dev.writes, dev.selects, dev.select_keeps, mask32),
  )

  get_driver_features-word :
      (σ : World D)
      → (get_driver_features bus hw σ).0
        ≡ bit_or (u64 (dev.word 1 σ.dev % 2 ^ 32 * 2 ^ 32)) (dev.word 0 σ.dev % 2 ^ 32)
  unfolding get_driver_features
  get_driver_features-word σ = simp (dev.reads, dev.selects, dev.select_keeps, dev.read_keeps)

  -- On a device that keeps two selectable feature words: what `virtio_pci_set_driver_features`
  -- writes is what `virtio_pci_get_driver_features` reads back, for every 64-bit word.
  pub get-set_driver_features :
      (features : ℕ) (σ : World D)
      → features < 2 ^ 64
      → (get_driver_features bus hw (set_driver_features bus hw features σ).1).0 ≡ features
  get-set_driver_features features σ small =
      let (low_half, high_half) = set_driver_features-word features σ in
      get_driver_features-word (set_driver_features bus hw features σ).1
      ∙ rw (low_half, high_half) (joined features small)
