-- ===== src/Prelude/Tables.antt =====
-- Facts about small numbers, checked at every value.
use Prim.Native.Nat.{ℕ, zero, suc, ◌^◌, ◌<◌, bit_or}
use mathlib.Core.Path.{◌≡◌, refl, ◌∙◌}
use mathlib.Core.Bool.{Bool, true, false}
use mathlib.Core.Logic.{inl, inr}
use native.Mathlib.Omega.{arith}
use native.Mathlib.Decide.{ℕ_discrete}
use virtio_pci_simple_driver.Prelude.Tests.{◌==◌, ==_iff, ltb, ltb→lt, Bool-cases, if◌then◌else◌}
use virtio_pci_simple_driver.Prelude.Bits.{bit, bit-lt, bit-bit_or}

-- A test that every number below a bound passes.
unfoldable pub passes : (test : ℕ → Bool) (bound : ℕ) → Bool
passes test zero = true
passes test (suc bound) = if test bound then passes test bound else false

pub passes-lt :
    (test : ℕ → Bool) (bound k : ℕ) → k < bound → passes test bound ≡ true → test k ≡ true
unfolding passes
passes-lt test (suc bound) k below all = elim (Bool-cases (test bound)) [
  | inl top ↦ elim (ℕ_discrete k bound) [
    | yes e ↦ rw e top
    | no ne ↦
        let lower : passes test bound ≡ true = rw top at all in
        passes-lt test bound k (omega arith) lower
  ]
  | inr top ↦ let bad : false ≡ true = rw top at all in cc
]
passes-lt test zero k below all = elim below [ ]

abbrev pow_digit : (n k : ℕ) → Bool
pow_digit n k = bit k (2 ^ n) == (if k == n then 1 else 0)

power_table : passes (λ n. passes (pow_digit n) 32) 32 ≡ true
unfolding passes
power_table = refl

-- `1 << n` has the digit `n` alone.
pub bit-pow : (n k : ℕ) → n < 32 → k < 32 → bit k (2 ^ n) ≡ (if k == n then 1 else 0)
bit-pow n k hn hk =
    let row = passes-lt (λ n. passes (pow_digit n) 32) 32 n hn power_table in
    (==_iff _ _).0 (passes-lt (pow_digit n) 32 k hk row)

-- Setting the digit `n`.
pub bit-set :
    (n k x : ℕ) → n < 32 → k < 32 → bit k (bit_or x (2 ^ n)) ≡ (if k == n then 1 else bit k x)
bit-set n k x hn hk = bit-bit_or k x (2 ^ n) ∙ rw (bit-pow n k hn hk) (ground (arith, bit-lt k x))

pub pow-lt_word : (n : ℕ) → n < 32 → 2 ^ n < 2 ^ 32
unfolding passes
pow-lt_word n h = ltb→lt _ _ (passes-lt (λ n. ltb (2 ^ n) (2 ^ 32)) 32 n h refl)

wide_table : passes (λ n. passes (pow_digit n) 64) 32 ≡ true
unfolding passes
wide_table = refl

-- The same in a word of 64 bits.
pub bit-pow_wide : (n k : ℕ) → n < 32 → k < 64 → bit k (2 ^ n) ≡ (if k == n then 1 else 0)
bit-pow_wide n k hn hk =
    let row = passes-lt (λ n. passes (pow_digit n) 64) 32 n hn wide_table in
    (==_iff _ _).0 (passes-lt (pow_digit n) 64 k hk row)
