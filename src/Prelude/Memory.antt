-- ===== src/Prelude/Memory.antt =====
-- Memory as a function of the address.
use Prim.Native.Nat.{ℕ, ◌+◌, ◌-◌, ◌≤◌, ◌<◌}
use mathlib.Core.Path.{◌≡◌, refl, sym, ap, ◌∙◌}
use mathlib.Core.Logic.{inl, inr}
use mathlib.Core.Bool.{true, false, ◌&&◌}
use native.Mathlib.Omega.{arith}
use native.Mathlib.Decide.{dec_lt}
use virtio_pci_simple_driver.Prelude.Tests.{leb, ltb, if◌then◌else◌, Bool-cases}

-- Bytes by their address, in memory or on a disk.
abbrev pub Bytes : Type 0
Bytes = ℕ → ℕ

-- `n` bytes of `src` at `from`, put over `dst` at `to`.
abbrev pub copy : (n : ℕ) → Bytes → (from : ℕ) → Bytes → (to : ℕ) → Bytes
copy n src from dst to = λ a. if leb to a && ltb a (to + n) then src (from + (a - to)) else dst a

-- Inside and below a range.
pub covered : (lo hi b x y : ℕ) → lo ≤ b → b < hi → (if leb lo b && ltb b hi then x else y) ≡ x
covered lo hi b x y h h' =
    let lower : leb lo b ≡ true = ground arith in
    let upper : ltb b hi ≡ true = ground arith in rw (lower, upper) refl

pub uncovered : (lo hi b x y : ℕ) → b < lo → (if leb lo b && ltb b hi then x else y) ≡ y
uncovered lo hi b x y h = let lower : leb lo b ≡ false = ground arith in rw lower refl

pub past_range : (lo hi b x y : ℕ) → hi ≤ b → (if leb lo b && ltb b hi then x else y) ≡ y
past_range lo hi b x y h =
    let upper : ltb b hi ≡ false = ground arith in
    elim (Bool-cases (leb lo b)) [ inl e ↦ rw (e, upper) refl | inr e ↦ rw e refl ]

pub covered_by :
    (lo hi b v w y : ℕ)
    → (lo ≤ b → b < hi → v ≡ w)
    → (if leb lo b && ltb b hi then v else y) ≡ (if leb lo b && ltb b hi then w else y)
covered_by lo hi b v w y h = elim (dec_lt b lo) [
  | yes before ↦ uncovered lo hi b v y before ∙ sym (uncovered lo hi b w y before)
  | no from ↦ elim (dec_lt b hi) [
    | yes here ↦ ap (λ x. if leb lo b && ltb b hi then x else y) (h (omega arith) here)
    | no past ↦ past_range lo hi b v y (omega arith) ∙ sym (past_range lo hi b w y (omega arith))
  ]
]

-- A byte within what `copy` puts down.
pub copy_within :
    (n : ℕ) (src : Bytes) (from : ℕ) (dst : Bytes) (to i : ℕ)
    → i < n
    → copy n src from dst to (to + i) ≡ src (from + i)
copy_within n src from dst to i h =
    covered to (to + n) (to + i) _ (dst (to + i)) (omega arith) (omega arith) ∙ ap src (omega arith)
