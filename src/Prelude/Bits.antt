-- ===== src/Prelude/Bits.antt =====
-- `&` and `|` on machine words, at variables: one digit at a time, by shifts and by masks.
use Prim.Native.Nat.{ℕ, zero, suc, ◌+◌, ◌-◌, ◌*◌, ◌/◌, ◌%◌, ◌^◌, ◌≤◌, ◌<◌, min, max}
use Prim.Native.Nat.{bit_and, bit_or, digits, bitwise, bit_and-bitwise, bit_or-bitwise}
use mathlib.Core.Path.{◌≡◌, refl, ap, sym, ◌∙◌}
use native.Mathlib.Nat.{pow-suc}
use native.Mathlib.Omega.{arith}

module _ (rest : ℕ → ℕ) (digit : ℕ → ℕ → ℕ) where
  -- One unit of fuel above the number is not used, so no surplus is.
  one_more :
      (fuel x y : ℕ) → x ≤ fuel → digits rest digit (suc fuel) x y ≡ digits rest digit fuel x y
  one_more fuel zero y enough =
      elim fuel as (λ f. digits rest digit (suc f) 0 y ≡ digits rest digit f 0 y) [
        | zero ↦ refl
        | suc _ ↦ refl
      ]
  one_more zero (suc x) y enough = elim enough [ ]
  one_more (suc fuel) (suc x) y enough =
      omega (arith, one_more fuel (suc x / 2) (y / 2) (omega arith))

  surplus : (extra x y : ℕ) → digits rest digit (extra + x) x y ≡ digits rest digit x x y
  surplus zero x y = let none : 0 + x ≡ x = omega arith in rw none
  surplus (suc extra) x y =
      let out : suc extra + x ≡ suc (extra + x) = omega arith in
      rw out (one_more (extra + x) x y (omega arith) ∙ surplus extra x y)

  lowest_digit :
      (a b : ℕ)
      → bitwise rest digit (suc a) b
        ≡ bitwise rest digit (suc a / 2) (b / 2) * 2 + digit (suc a % 2) (b % 2)
  lowest_digit a b =
      let fuel : (a - suc a / 2) + suc a / 2 ≡ a = omega arith in
      let exact : digits rest digit a (suc a / 2) (b / 2)
          ≡ digits rest digit (suc a / 2) (suc a / 2) (b / 2) =
        ap (λ f. digits rest digit f (suc a / 2) (b / 2)) (sym fuel)
        ∙ surplus (a - suc a / 2) (suc a / 2) (b / 2) in
      omega (arith, exact)

-- The lowest digit of a conjunction and of a disjunction, and the digits above it.
pub bit_and_step : (x y : ℕ) → bit_and x y ≡ bit_and (x / 2) (y / 2) * 2 + min (x % 2) (y % 2)
bit_and_step (suc x) y = simp bit_and-bitwise (lowest_digit (λ _. zero) min x y)
bit_and_step zero y = simp bit_and-bitwise (omega arith)

-- Digit `k`, and what stands above it.
abbrev pub bit : ℕ → ℕ → ℕ
bit zero x = x % 2
bit (suc k) x = bit k (x / 2)

abbrev pub shr : ℕ → ℕ → ℕ
shr zero x = x
shr (suc k) x = shr k (x / 2)

pub bit_or_step : (x y : ℕ) → bit_or x y ≡ bit_or (x / 2) (y / 2) * 2 + max (x % 2) (y % 2)
bit_or_step (suc x) y = simp bit_or-bitwise (lowest_digit (λ above. above) max x y)
bit_or_step zero y = simp bit_or-bitwise (omega arith)

-- `k` ones.
abbrev pub ones : ℕ → ℕ
ones zero = 0
ones (suc k) = ones k * 2 + 1

pub bit-lt : (k x : ℕ) → bit k x < 2
bit-lt zero x = omega arith
bit-lt (suc k) x = bit-lt k (x / 2)

pub bit-bit_and : (k a b : ℕ) → bit k (bit_and a b) ≡ min (bit k a) (bit k b)
bit-bit_and zero a b = omega (arith, bit_and_step a b)
bit-bit_and (suc k) a b =
    let e : bit_and a b / 2 ≡ bit_and (a / 2) (b / 2) = omega (arith, bit_and_step a b) in
    rw e (bit-bit_and k (a / 2) (b / 2))

pub bit-bit_or : (k a b : ℕ) → bit k (bit_or a b) ≡ max (bit k a) (bit k b)
bit-bit_or zero a b = omega (arith, bit_or_step a b)
bit-bit_or (suc k) a b =
    let e : bit_or a b / 2 ≡ bit_or (a / 2) (b / 2) = omega (arith, bit_or_step a b) in
    rw e (bit-bit_or k (a / 2) (b / 2))

-- Zero on the right; with fuel `n`, since the recursion halves.
zero_right : (n a : ℕ) → a ≤ n → (bit_and a 0 ≡ 0) × (bit_or a 0 ≡ a)
zero_right n zero h = (refl, refl)
zero_right zero (suc a) h = elim h [ ]
zero_right (suc n) (suc a) h =
    let (conj, disj) = zero_right n (suc a / 2) (omega arith) in
    (omega (arith, bit_and_step (suc a) 0, conj), omega (arith, bit_or_step (suc a) 0, disj))

pub bit_and-zero : (a : ℕ) → bit_and a 0 ≡ 0
bit_and-zero a = (zero_right a a (omega arith)).0

pub bit_or-zero : (a : ℕ) → bit_or a 0 ≡ a
bit_or-zero a = (zero_right a a (omega arith)).1

pub zero-bit_or : (b : ℕ) → bit_or 0 b ≡ b
zero-bit_or b = simp bit_or-bitwise

pub bit_or-lt : (k a b : ℕ) → a < 2 ^ k → b < 2 ^ k → bit_or a b < 2 ^ k
bit_or-lt zero a b p q =
    let za : a ≡ 0 = omega arith in let zb : b ≡ 0 = omega arith in rw (za, zb) (omega arith)
bit_or-lt (suc k) a b p q = omega (
  arith,
  bit_or_step a b,
  pow-suc 2 k,
  bit_or-lt k (a / 2) (b / 2) (omega (arith, pow-suc 2 k)) (omega (arith, pow-suc 2 k)),
)

-- A mask of ones keeps a number that fits.
pub bit_and-ones : (k a : ℕ) → a < 2 ^ k → bit_and a (ones k) ≡ a
bit_and-ones zero a h = rw bit_and-zero (omega arith)
bit_and-ones (suc k) a h = omega (
  arith,
  bit_and_step a (ones (suc k)),
  ap (bit_and (a / 2)) (let e : (ones k * 2 + 1) / 2 ≡ ones k = omega arith in e),
  bit_and-ones k (a / 2) (omega (arith, pow-suc 2 k)),
)

-- A mask of `k` ones is the remainder by `2 ^ k`, here by its digits.
abbrev pub low : ℕ → ℕ → ℕ
low zero x = 0
low (suc k) x = low k (x / 2) * 2 + x % 2

pub bit_and-low : (k a : ℕ) → bit_and a (ones k) ≡ low k a
bit_and-low zero a = bit_and-zero a
bit_and-low (suc k) a = omega (
  arith,
  bit_and_step a (ones (suc k)),
  ap (bit_and (a / 2)) (let e : (ones k * 2 + 1) / 2 ≡ ones k = omega arith in e),
  bit_and-low k (a / 2),
)

double : (m k : ℕ) → m * 2 ^ suc k ≡ m * 2 ^ k * 2
double m k = omega (arith, ap (λ (t : ℕ). m * t) (pow-suc 2 k))

-- A mask that stands above `k` zeros.
pub bit_and_high : (k a m : ℕ) → bit_and a (m * 2 ^ k) ≡ bit_and (shr k a) m * 2 ^ k
bit_and_high zero a m = let e : m * 2 ^ 0 ≡ m = omega arith in rw e (omega arith)
bit_and_high (suc k) a m = omega (
  arith,
  bit_and_step a (m * 2 ^ suc k),
  double m k,
  double (bit_and (shr k (a / 2)) m) k,
  ap (bit_and (a / 2)) (let e : m * 2 ^ suc k / 2 ≡ m * 2 ^ k = omega (arith, double m k) in e),
  bit_and_high k (a / 2) m,
)

-- `(hi << k) | lo` is a sum where `lo` fits below `hi`.
pub bit_or_fields : (k hi lo : ℕ) → lo < 2 ^ k → bit_or (hi * 2 ^ k) lo ≡ hi * 2 ^ k + lo
bit_or_fields zero hi lo h =
    let e : hi * 2 ^ 0 ≡ hi = omega arith in
    let z : lo ≡ 0 = omega arith in rw (e, z, bit_or-zero) (omega arith)
bit_or_fields (suc k) hi lo h = omega (
  arith,
  bit_or_step (hi * 2 ^ suc k) lo,
  double hi k,
  ap (λ (t : ℕ). bit_or t (lo / 2))
      (let e : hi * 2 ^ suc k / 2 ≡ hi * 2 ^ k = omega (arith, double hi k) in e),
  bit_or_fields k hi (lo / 2) (omega (arith, pow-suc 2 k)),
)

-- The masks of a register's lowest bits.
pub bit_and_one : (a : ℕ) → bit_and a 1 ≡ a % 2
bit_and_one a = omega (arith, bit_and-low 1 a)

pub bit_and_four : (a : ℕ) → bit_and a 4 ≡ a / 4 % 2 * 4
bit_and_four a = omega (arith, bit_and_high 2 a 1, bit_and_one (shr 2 a))

pub bit_and_fifteen : (a : ℕ) → bit_and a 15 ≡ a % 16
bit_and_fifteen a = omega (arith, bit_and-low 4 a)

-- Four bits beside a multiple of 16.
pub bit_or_nibble : (a b : ℕ) → a < 16 → b % 16 ≡ 0 → bit_or a b ≡ a + b
bit_or_nibble a b small whole =
    let none : a / 2 / 2 / 2 / 2 ≡ 0 = omega arith in
    omega (
      arith,
      bit_or_step a b,
      bit_or_step (a / 2) (b / 2),
      bit_or_step (a / 2 / 2) (b / 2 / 2),
      bit_or_step (a / 2 / 2 / 2) (b / 2 / 2 / 2),
      ap (λ t. bit_or t (b / 2 / 2 / 2 / 2)) none ∙ zero-bit_or (b / 2 / 2 / 2 / 2),
    )
