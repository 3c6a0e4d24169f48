-- ===== src/Pci/Bars.antt =====
-- `pci_device_probe` on the BARs of one device.
use native.Mathlib.Nat.{mod-add-mod, mod-eq_of_lt, mod-lt}
use virtio_pci_simple_driver.Prelude.{
  ℕ, ◌+◌, ◌-◌, ◌*◌, ◌/◌, ◌%◌, ◌^◌, ◌≤◌, ◌<◌, ◌≡◌, refl, ◌∙◌, arith, ◌==◌, if◌then◌else◌, bit_or,
  u32, u64, dec_lt,
}
use virtio_pci_simple_driver.Prelude.Bits.{bit_or_fields, bit_or_nibble}
use virtio_pci_simple_driver.Prelude.Pages.{page_up}
use virtio_pci_simple_driver.Bus.{Bus}
use virtio_pci_simple_driver.Pci.{word, pcie0_mmio, alloc_mmio, bar_size64, bar_size32}
use virtio_pci_simple_driver.Pci.Alloc.{page_align-eq-page_up, bar_size64_of_mul, bar_size32_of_mul}

-- How a BAR register reads: a constant, or what was last written, with the bits below the size
-- replaced by flags.
pub data Shape : Type 0 where
  fixed : (value : ℕ) → Shape
  masked : (sz flags : ℕ) → Shape
  whole : Shape

abbrev pub value : Shape → ℕ → ℕ
value (fixed v) r = v
value (masked sz flags) r = r - r % sz + flags
value whole r = r

-- A device whose six BAR registers have these shapes, `raw` being what was last written.
pub record HasBars {D : Type 0} (bus : Bus D) (base : ℕ) (shape : ℕ → Shape) : Type 0 where
  pub raw : ℕ → D → ℕ
  pub reads :
      (j : ℕ) (d : D)
      → j < 6
      → (bus.answer 32 (word base (4 + j)) d).0 % 2 ^ 32 ≡ value (shape j) (raw j d)
  pub read_keeps : (j k : ℕ) (d : D) → raw k (bus.answer 32 (word base (4 + j)) d).1 ≡ raw k d
  pub writes :
      (j v k : ℕ) (d : D)
      → raw k (bus.accept 32 (word base (4 + j)) v d) ≡ (if k == j then v % 2 ^ 32 else raw k d)

-- A size that a BAR can have: a power of two from 16 on, as far as the code can tell.
pub record IsBarSize (sz : ℕ) : Type 0 where
  pub least : 16 ≤ sz
  pub most : sz < 2 ^ 32
  pub whole16 : sz % 16 ≡ 0
  pub divides : 2 ^ 32 % sz ≡ 0

-- All ones, masked by a size, is the two's complement of the size.
pub ones-mod : (sz : ℕ) → IsBarSize sz → 0xffff_ffff % sz ≡ sz - 1
ones-mod sz size = elim (dec_lt (0xffff_ffff % sz + 1) sz) [
  | yes less ↦
      let back : (0xffff_ffff % sz + 1) % sz ≡ 2 ^ 32 % sz = mod-add-mod 0xffff_ffff sz 1 in
      absurd (omega (arith, back, mod-eq_of_lt less, size.divides))
  | no more ↦ omega (arith, mod-lt 0xffff_ffff {m = sz} (omega (arith, size.least)))
]

pub alloc_mmio-lem :
    (s_off sz : ℕ)
    → s_off + page_up sz < 2 ^ 62
    → alloc_mmio s_off sz ≡ (pcie0_mmio + s_off, s_off + page_up sz)
unfolding alloc_mmio
alloc_mmio-lem s_off sz room =
    let at_off : u64 (pcie0_mmio + s_off) ≡ pcie0_mmio + s_off = omega arith in
    let moved : u64 (s_off + page_up sz) ≡ s_off + page_up sz = omega arith in
    rw (page_align-eq-page_up sz (omega arith), at_off, moved) refl

pub sized64 :
    (sz flags : ℕ)
    → IsBarSize sz
    → flags < 16
    → bar_size64 (bit_or (0xffff_ffff * 2 ^ 32) (0xffff_ffff - 0xffff_ffff % sz + flags)) ≡ sz
sized64 sz flags size small =
    let low : 0xffff_ffff - 0xffff_ffff % sz + flags < 2 ^ 32 =
      omega (arith, ones-mod sz size, size.least, size.most, size.whole16) in
    let all : 0xffff_ffff * 2 ^ 32 + (0xffff_ffff - 0xffff_ffff % sz + flags)
        ≡ 2 ^ 64 - sz / 16 * 16 + flags =
      omega (arith, ones-mod sz size, size.least, size.most, size.whole16) in
    rw (bit_or_fields 32 0xffff_ffff (0xffff_ffff - 0xffff_ffff % sz + flags) low, all)
      (bar_size64_of_mul (sz / 16) flags (omega (arith, size.least)) (omega (arith, size.most))
          small
        ∙ omega (arith, size.whole16))

pub sized32 :
    (sz flags : ℕ)
    → IsBarSize sz
    → flags < 16
    → bar_size32 (0xffff_ffff - 0xffff_ffff % sz + flags) ≡ sz
sized32 sz flags size small =
    let all : 0xffff_ffff - 0xffff_ffff % sz + flags ≡ 2 ^ 32 - sz / 16 * 16 + flags =
      omega (arith, ones-mod sz size, size.least, size.most, size.whole16) in
    rw all (
      bar_size32_of_mul (sz / 16) flags (omega (arith, size.least)) (omega (arith, size.most)) small
      ∙ omega (arith, size.whole16))

-- What is written into the lower register.
pub flagged :
    (flags s_off : ℕ)
    → flags < 16
    → s_off % 4096 ≡ 0
    → bit_or flags (u32 (pcie0_mmio + s_off)) ≡ flags + (pcie0_mmio + s_off) % 2 ^ 32
flagged flags s_off small page = bit_or_nibble flags (u32 (pcie0_mmio + s_off)) small (omega arith)
