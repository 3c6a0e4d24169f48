-- ===== src/Rng/Polling.antt =====
-- The polling loop of the entropy driver, on what its reads of the used ring find.
use virtio_pci_simple_driver.Prelude.{
  ℕ, ◌+◌, ◌%◌, ◌≡◌, ◌≢◌, refl, true, Bool-cases, inl, inr, ==_iff, ◌==◌, some, List, [], ◌∷◌, ◌++◌,
  u16, get_elem?,
}
use virtio_pci_simple_driver.Ring.{Used, UsedElem}
use virtio_pci_simple_driver.Rng.{Rng, is_waiting, finish, poll}

-- What a read of the used ring finds while the device has not moved on.
abbrev pub AllStale : (idx : ℕ) → List Used → Type 0
AllStale idx [] = Unit {0}
AllStale idx (u ∷ us) = (idx ≡ u.idx) × AllStale idx us

-- The loop goes on over what is stale.
pub poll-append :
    (rng : Rng) (stale seen : List Used)
    → AllStale rng.used_idx stale
    → poll rng (stale ++ seen) ≡ poll rng seen
unfolding poll is_waiting
poll-append rng [] seen h = refl
poll-append rng (u ∷ us) seen (e, h) =
    let same : (rng.used_idx == u.idx) ≡ true = (==_iff rng.used_idx u.idx).1 e in
    rw (poll, is_waiting, same) (poll-append rng us seen h)

-- The loop ends at the first read that finds another index.
pub poll-moved :
    (rng : Rng) (used : Used) (seen : List Used) (e : UsedElem)
    → rng.used_idx ≢ used.idx
    → get_elem? used.ring (rng.used_idx % rng.vr.size) ≡ some e
    → poll rng (used ∷ seen)
      ≡ some (e.len, record rng { used = used; used_idx = u16 (rng.used_idx + 1) })
unfolding poll is_waiting finish
poll-moved rng used seen e ne at_idx = elim (Bool-cases (rng.used_idx == used.idx)) [
  | inl same ↦ absurd (ne ((==_iff rng.used_idx used.idx).0 same))
  | inr other ↦ rw (poll, is_waiting, other, finish, at_idx) refl
]
