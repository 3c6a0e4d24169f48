-- ===== src/Pci/Assign.antt =====
-- What the BAR loop of `pci_device_probe` leaves in the registers of one device.
use native.Mathlib.Nat.{mod-mod_of_dvd, dvd_of_mod-eq-zero}
use virtio_pci_simple_driver.Prelude.{
  ℕ, ◌+◌, ◌-◌, ◌/◌, ◌%◌, ◌^◌, ◌<◌, ◌≡◌, ◌≢◌, refl, ◌∙◌, arith, false, ◌==◌, ==_refl, ==_ne,
}
use virtio_pci_simple_driver.Prelude.Pages.{page_up}
use virtio_pci_simple_driver.Bus.{Bus, World}
use virtio_pci_simple_driver.Pci.{word, pcie0_mmio, assign_bar64, assign_bar32}
use virtio_pci_simple_driver.Pci.Bars.{
  Shape, masked, whole, value, HasBars, IsBarSize, alloc_mmio-lem, sized64, sized32, flagged,
}

-- The flags of a BAR in what it reads.
pub value-flags :
    (sz flags r : ℕ) → IsBarSize sz → flags < 16 → value (masked sz flags) r % 16 ≡ flags
value-flags sz flags r size small =
    let low : r % sz % 16 ≡ r % 16 = mod-mod_of_dvd 16 r (dvd_of_mod-eq-zero 16 size.whole16) in
    omega (arith, low)

module _ {D : Type 0} {bus : Bus D} {base : ℕ} {shape : ℕ → Shape}
    (has : HasBars bus base shape) where
  pub raw_here : (j v : ℕ) (d : D) → has.raw j (bus.accept 32 (word base (4 + j)) v d) ≡ v % 2 ^ 32
  raw_here j v d = has.writes j v j d ∙ rw (==_refl j) refl

  pub raw_there :
      (j v k : ℕ) (d : D) → k ≢ j → has.raw k (bus.accept 32 (word base (4 + j)) v d) ≡ has.raw k d
  raw_there j v k d ne = has.writes j v k d ∙ rw (==_ne k j ne) refl

  -- The last part of each branch, on the registers: `i` holds the low word and, for a pair, the next one
  -- the high word.
  pub assign_bar64-lem :
      (i s_off sz flags : ℕ) (σ : World D)
      → i + 1 < 6
      → shape i ≡ masked sz flags
      → shape (i + 1) ≡ whole
      → IsBarSize sz
      → flags < 16
      → s_off % 4096 ≡ 0
      → s_off + page_up sz < 2 ^ 62
      → let (out, τ) = assign_bar64 bus base i flags s_off σ in
        (out ≡ (i + 2, s_off + page_up sz))
        × (has.raw i τ.dev ≡ flags + (pcie0_mmio + s_off) % 2 ^ 32)
        × (has.raw (i + 1) τ.dev ≡ (pcie0_mmio + s_off) / 2 ^ 32)
        × ((k : ℕ) → k ≢ i → k ≢ i + 1 → has.raw k τ.dev ≡ has.raw k σ.dev)
  unfolding assign_bar64
  assign_bar64-lem i s_off sz flags σ pair lo_shape hi_shape size small page room =
      let next : 4 + i + 1 ≡ 4 + (i + 1) = omega arith in
      let d1 : D = bus.accept 32 (word base (4 + i)) 0xffff_ffff σ.dev in
      let d2 : D = bus.accept 32 (word base (4 + (i + 1))) 0xffff_ffff d1 in
      let d3 : D = (bus.answer 32 (word base (4 + (i + 1))) d2).1 in
      let d4 : D = (bus.answer 32 (word base (4 + i)) d3).1 in
      let hi_raw : has.raw (i + 1) d2 ≡ 0xffff_ffff = raw_here (i + 1) 0xffff_ffff d1 in
      let lo_raw : has.raw i d3 ≡ 0xffff_ffff =
        has.read_keeps (i + 1) i d2
        ∙ raw_there (i + 1) 0xffff_ffff i d1 (omega arith)
        ∙ raw_here i 0xffff_ffff σ.dev in
      let hi : (bus.answer 32 (word base (4 + (i + 1))) d2).0 % 2 ^ 32 ≡ 0xffff_ffff =
        has.reads (i + 1) d2 pair ∙ rw (hi_shape, hi_raw) refl in
      let lo : (bus.answer 32 (word base (4 + i)) d3).0 % 2 ^ 32
          ≡ 0xffff_ffff - 0xffff_ffff % sz + flags =
        has.reads i d3 (omega arith) ∙ rw (lo_shape, lo_raw) refl in
      let some_size : (sz == 0) ≡ false = ==_ne sz 0 (omega (arith, size.least)) in
      let fit_lo : (flags + (pcie0_mmio + s_off) % 2 ^ 32) % 2 ^ 32
          ≡ flags + (pcie0_mmio + s_off) % 2 ^ 32 =
        omega arith in
      let fit_hi : (pcie0_mmio + s_off) / 2 ^ 32 % 2 ^ 32 ≡ (pcie0_mmio + s_off) / 2 ^ 32 =
        omega arith in
      let kept = λ (k : ℕ) (ne : k ≢ i) (ne' : k ≢ i + 1).
        has.read_keeps i k d3
        ∙ has.read_keeps (i + 1) k d2
        ∙ raw_there (i + 1) 0xffff_ffff k d1 ne'
        ∙ raw_there i 0xffff_ffff k σ.dev ne in
      rw
        (
          next,
          hi,
          lo,
          sized64 sz flags size small,
          some_size,
          alloc_mmio-lem s_off sz room,
          flagged flags s_off small page,
          fit_lo,
          fit_hi,
        )
        (
          refl,
          raw_there (i + 1) _ i _ (omega arith) ∙ raw_here i _ d4 ∙ fit_lo,
          raw_here (i + 1) _ _ ∙ omega arith,
          λ k ne ne'. raw_there (i + 1) _ k _ ne' ∙ raw_there i _ k d4 ne ∙ kept k ne ne',
        )

  pub assign_bar32-lem :
      (i s_off sz flags : ℕ) (σ : World D)
      → i < 6
      → shape i ≡ masked sz flags
      → IsBarSize sz
      → flags < 16
      → s_off % 4096 ≡ 0
      → s_off + page_up sz < 2 ^ 62
      → let (out, τ) = assign_bar32 bus base i flags s_off σ in
        (out ≡ (i + 1, s_off + page_up sz))
        × (has.raw i τ.dev ≡ flags + (pcie0_mmio + s_off) % 2 ^ 32)
        × ((k : ℕ) → k ≢ i → has.raw k τ.dev ≡ has.raw k σ.dev)
  unfolding assign_bar32
  assign_bar32-lem i s_off sz flags σ at_i lo_shape size small page room =
      let d1 : D = bus.accept 32 (word base (4 + i)) 0xffff_ffff σ.dev in
      let d2 : D = (bus.answer 32 (word base (4 + i)) d1).1 in
      let lo : (bus.answer 32 (word base (4 + i)) d1).0 % 2 ^ 32
          ≡ 0xffff_ffff - 0xffff_ffff % sz + flags =
        has.reads i d1 at_i ∙ rw (lo_shape, raw_here i 0xffff_ffff σ.dev) refl in
      let some_size : (sz == 0) ≡ false = ==_ne sz 0 (omega (arith, size.least)) in
      let fit : (flags + (pcie0_mmio + s_off) % 2 ^ 32) % 2 ^ 32
          ≡ flags + (pcie0_mmio + s_off) % 2 ^ 32 =
        omega arith in
      rw
        (
          lo,
          sized32 sz flags size small,
          some_size,
          alloc_mmio-lem s_off sz room,
          flagged flags s_off small page,
          fit,
        )
        (
          refl,
          has.read_keeps i i _ ∙ raw_here i _ d2 ∙ fit,
          λ k ne.
              has.read_keeps i k _
              ∙ raw_there i _ k d2 ne
              ∙ has.read_keeps i k d1
              ∙ raw_there i 0xffff_ffff k σ.dev ne,
        )
