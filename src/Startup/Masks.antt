-- ===== src/Startup/Masks.antt =====
-- `features &= ~(1 << n)`, digit by digit.
use virtio_pci_simple_driver.Prelude.{
  ℕ, ◌-◌, ◌^◌, ◌<◌, ◌≡◌, refl, arith, Bool, true, false, List, [], ◌∷◌, Bool-cases, inl, inr, ◌==◌,
  ==_iff, if◌then◌else◌, ◌∙◌,
}
use virtio_pci_simple_driver.Prelude.Bits.{bit, bit-lt, bit-bit_and}
use virtio_pci_simple_driver.Prelude.Tables.{passes, passes-lt}
use virtio_pci_simple_driver.Startup.{clear_feature}

abbrev mask_digit : (n k : ℕ) → Bool
mask_digit n k = bit k (2 ^ 64 - 1 - 2 ^ n) == (if k == n then 0 else 1)

mask_table : passes (λ n. passes (mask_digit n) 64) 31 ≡ true
unfolding passes
mask_table = refl

mask_digits : (n k : ℕ) → n < 31 → k < 64 → bit k (2 ^ 64 - 1 - 2 ^ n) ≡ (if k == n then 0 else 1)
mask_digits n k hn hk =
    let row = passes-lt (λ n. passes (mask_digit n) 64) 31 n hn mask_table in
    (==_iff _ _).0 (passes-lt (mask_digit n) 64 k hk row)

-- `features &= ~(1 << n)` for n below 31: digit `n` is cleared and every other of the 64 stays.
pub bit-clear_feature :
    (n k f : ℕ) → n < 31 → k < 64 → bit k (clear_feature n f) ≡ (if k == n then 0 else bit k f)
unfolding clear_feature
bit-clear_feature n k f hn hk =
    bit-bit_and k f (2 ^ 64 - 1 - 2 ^ n) ∙ rw (mask_digits n k hn hk) (ground (arith, bit-lt k f))

-- Digit `k` is one of those that are cleared.
abbrev pub is_cleared : List ℕ → ℕ → Bool
is_cleared [] k = false
is_cleared (n ∷ ns) k = if k == n then true else is_cleared ns k

-- One more feature cleared.
pub bit-clear_feature_more :
    (n : ℕ) (ns : List ℕ) (k x f : ℕ)
    → n < 31
    → k < 64
    → bit k x ≡ (if is_cleared ns k then 0 else bit k f)
    → bit k (clear_feature n x) ≡ (if is_cleared (n ∷ ns) k then 0 else bit k f)
bit-clear_feature_more n ns k x f hn hk h =
    bit-clear_feature n k x hn hk
    ∙ elim (Bool-cases (k == n)) [ inl e ↦ rw e refl | inr e ↦ rw (e, h) refl ]
