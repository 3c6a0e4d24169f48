-- ===== src/Prelude/Pages.antt =====
-- Page boundaries: the `(x + 0xfff) & ~0xfff` of the macros VQ_ALIGN and PAGE_ALIGN, and the
-- `x & ~0xf` of BAR values, as divisions.
use Prim.Native.Nat.{ℕ, ◌+◌, ◌*◌, ◌/◌, ◌%◌, ◌^◌, ◌<◌, bit_and}
use mathlib.Core.Path.{◌≡◌}
use native.Mathlib.Omega.{arith}
use virtio_pci_simple_driver.Prelude.Bits.{ones, shr, bit_and-ones, bit_and_high}

-- The next page boundary.
abbrev pub page_up : ℕ → ℕ
page_up a = (a + 4095) / 4096 * 4096

shr12 : (a : ℕ) → shr 12 a ≡ a / 4096
shr12 a = omega arith

shr4 : (a : ℕ) → shr 4 a ≡ a / 16
shr4 a = omega arith

pub mask-page_up :
    (a : ℕ) → a + 0xfff < 2 ^ 64 → bit_and ((a + 0xfff) % 2 ^ 64) 0xffff_ffff_ffff_f000 ≡ page_up a
mask-page_up a h = omega (
  arith,
  bit_and_high 12 ((a + 0xfff) % 2 ^ 64) (ones 52),
  shr12 ((a + 0xfff) % 2 ^ 64),
  bit_and-ones 52 (shr 12 ((a + 0xfff) % 2 ^ 64)) (omega (arith, shr12 ((a + 0xfff) % 2 ^ 64))),
)

pub mask64-div : (x : ℕ) → x < 2 ^ 64 → bit_and x 0xffff_ffff_ffff_fff0 ≡ x / 16 * 16
mask64-div x h =
    omega
      (arith, bit_and_high 4 x (ones 60), shr4 x, bit_and-ones 60 (shr 4 x) (omega (arith, shr4 x)))

pub mask32-div : (x : ℕ) → x < 2 ^ 32 → bit_and x 0xffff_fff0 ≡ x / 16 * 16
mask32-div x h =
    omega
      (arith, bit_and_high 4 x (ones 28), shr4 x, bit_and-ones 28 (shr 4 x) (omega (arith, shr4 x)))
