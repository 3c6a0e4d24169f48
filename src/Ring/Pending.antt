-- ===== src/Ring/Pending.antt =====
-- The available ring as a queue: `virtio_vring_add_avail` against an unbounded FIFO, with the
-- free-running 16-bit index on both sides.
use mathlib.Core.Path.{ap₂}
use native.Mathlib.Nat.{mod-add-mod, mod-eq_of_lt, mod-eq-sub-mod, mod-mod_of_dvd, mod-lt}
use native.Mathlib.Nat.{dvd_of_mod-eq-zero}
use virtio_pci_simple_driver.Prelude.{
  ℕ, zero, suc, ◌+◌, ◌-◌, ◌%◌, ◌^◌, ◌≤◌, ◌<◌, ◌≡◌, ◌≢◌, ap, ◌∙◌, sym, List, [], ◌∷◌, ◌++◌, arith,
  u16, dec_lt, set, get_or, get_or-set_self, get_or-set_ne, length,
}
use virtio_pci_simple_driver.Ring.{Avail, add_avail}

-- `n` entries from position `start` of a free-running 16-bit index on.
abbrev pub window : List ℕ → (size start n : ℕ) → List ℕ
window ring size start zero = []
window ring size start (suc n) = get_or ring (start % size) 0 ∷ window ring size (u16 (start + 1)) n

-- How far the index is ahead of a device that has taken the entries before `seen`.
unfoldable pub waiting : Avail → ℕ → ℕ
waiting a seen = (a.idx + 2 ^ 16 - seen) % 2 ^ 16

-- The heads that are published and not yet taken, oldest first.
unfoldable pub pending : Avail → (size seen : ℕ) → List ℕ
pending a size seen = window a.ring size seen (waiting a seen)

-- Fewer than `size` steps round the ring do not come back to the start.
add-mod-ne : (size h k : ℕ) → 0 < k → k < size → (h + k) % size ≢ h % size
add-mod-ne size h k pos lt = elim (dec_lt (h % size + k) size) [
  | yes p ↦ omega (arith, mod-add-mod h size k, mod-eq_of_lt p)
  | no p ↦ omega (
    arith,
    mod-add-mod h size k,
    mod-lt h {m = size} (omega arith),
    mod-eq-sub-mod {n = h % size + k} {m = size} (omega arith),
    mod-eq_of_lt {n = h % size + k - size} {m = size}
        (omega (arith, mod-lt h {m = size} (omega arith))),
  )
]

module _ (size : ℕ) (divides : 2 ^ 16 % size ≡ 0) where
  mod_u16 : (a : ℕ) → u16 a % size ≡ a % size
  mod_u16 a = mod-mod_of_dvd size a (dvd_of_mod-eq-zero size divides)

  -- Writing just past a window extends it.
  window-set :
      (ring : List ℕ) (x n start i : ℕ)
      → size ≤ length ring
      → n < size
      → i ≡ (start + n) % size
      → window (set ring i x) size start (suc n) ≡ window ring size start n ++ (x ∷ [])
  window-set ring x zero start i room lt e =
      let e' : i ≡ start % size = e ∙ ap (λ t. t % size) (omega arith) in
      rw e' (
        ap (λ t. t ∷ [])
          (get_or-set_self ring (start % size) x 0
            (omega (arith, mod-lt start {m = size} (omega arith)))))
  window-set ring x (suc n) start i room lt e =
      ap₂ ◌∷◌
        (get_or-set_ne ring i (start % size) x 0
          (rw e (add-mod-ne size start (suc n) (omega arith) lt)))
        (window-set ring x n (u16 (start + 1)) i room (omega arith) (e ∙ shift))
    where
      shift : (start + suc n) % size ≡ (u16 (start + 1) + n) % size
      shift =
          rw (← mod-add-mod (u16 (start + 1)) size n, mod_u16 (start + 1), mod-add-mod)
            (ap (λ t. t % size) (omega arith))

  -- `virtio_vring_add_avail` on a ring whose size divides 2^16 and is less, while fewer than `size` heads wait:
  -- the device sees the same heads in the same order, and the new one behind them, also when the
  -- 16-bit index wraps.
  pub pending-add_avail :
      (a : Avail) (seen idx : ℕ)
      → size < 2 ^ 16
      → size ≤ length a.ring
      → a.idx < 2 ^ 16
      → seen < 2 ^ 16
      → idx < 2 ^ 16
      → waiting a seen < size
      → pending (add_avail a idx size) size seen ≡ pending a size seen ++ (idx ∷ [])
  unfolding pending waiting add_avail
  pending-add_avail a seen idx narrow room in_word seen_word idx_word free = rw more (
      window-set a.ring (u16 idx) (waiting a seen) seen (a.idx % size) room free slot
      ∙ ap (λ x. window a.ring size seen (waiting a seen) ++ (x ∷ [])) fits)
    where
      fits : u16 idx ≡ idx
      fits = omega arith

      more : (u16 (a.idx + 1) + 2 ^ 16 - seen) % 2 ^ 16 ≡ suc (waiting a seen)
      more = omega arith

      slot : a.idx % size ≡ (seen + waiting a seen) % size
      slot =
          let e : u16 (seen + waiting a seen) ≡ a.idx = omega arith in
          ap (λ t. t % size) (sym e) ∙ mod_u16 (seen + waiting a seen)
