-- ===== src/Trap/Claims.antt =====
-- Claims and completions around a handler.
use virtio_pci_simple_driver.Prelude.{
  ℕ, ◌+◌, ◌%◌, ◌^◌, ◌<◌, ◌≡◌, ◌≢◌, ◌⊎◌, inl, inr, refl, sym, ap, ◌∙◌, arith, true, false, ◌||◌,
  ◌==◌, ==_ne, ==_iff, ℕ_discrete, Bool-cases,
}
use virtio_pci_simple_driver.Bus.{Bus, World}
use virtio_pci_simple_driver.Plic.{claim_addr}
use virtio_pci_simple_driver.Plic.Controller.{IsPlic, IsOutside}
use virtio_pci_simple_driver.Uart.{isr}
use virtio_pci_simple_driver.Uart.Keeps.{isr-view}

-- What was not claimed is not claimed, and stays enabled or disabled.
abbrev pub Settles : {D : Type 0} {bus : Bus D} (plic : IsPlic bus) (d d' : D) → Type 0
Settles plic d d' =
    (i : ℕ)
    → plic.active i d ≡ false
    → (plic.active i d' ≡ false) × (plic.enabled i d' ≡ plic.enabled i d)

module _ {D : Type 0} {bus : Bus D} (plic : IsPlic bus) (base : ℕ)
    (outside : (k : ℕ) → k < 8 → IsOutside (base + k)) where
  console_loads :
      (k i : ℕ) (d : D)
      → k < 8
      → let d' = (bus.answer 8 (base + k) d).1 in
        (plic.active i d' ≡ plic.active i d) × (plic.enabled i d' ≡ plic.enabled i d)
  console_loads k i d small =
      let (e, a) = plic.load_outside 8 (base + k) i d (outside k small) in (a, e)

  console_stores :
      (k v i : ℕ) (d : D)
      → k < 8
      → let d' = bus.accept 8 (base + k) v d in
        (plic.active i d' ≡ plic.active i d) × (plic.enabled i d' ≡ plic.enabled i d)
  console_stores k v i d small =
      let (e, a) = plic.store_outside 8 (base + k) v i d (outside k small) in (a, e)

  pub isr-keeps :
      (n i : ℕ) (σ : World D)
      → let d' = (isr bus n base σ).1.dev in
        (plic.active i d' ≡ plic.active i σ.dev) × (plic.enabled i d' ≡ plic.enabled i σ.dev)
  isr-keeps n i σ = (
    isr-view bus base (plic.active i) (λ k d h. (console_loads k i d h).0)
        (λ k v d h. (console_stores k v i d h).0) n σ,
    isr-view bus base (plic.enabled i) (λ k d h. (console_loads k i d h).1)
        (λ k v d h. (console_stores k v i d h).1) n σ,
  )

module _ {D : Type 0} {bus : Bus D} (plic : IsPlic bus) where
  -- Completing a source that has been claimed leaves nothing claimed.
  pub none_left :
      (r i : ℕ) (d d' : D)
      → (bus.answer 32 claim_addr d).0 ≡ r
      → r ≢ 0
      → ((k : ℕ)
          → (plic.active k d' ≡ plic.active k (bus.answer 32 claim_addr d).1)
            × (plic.enabled k d' ≡ plic.enabled k (bus.answer 32 claim_addr d).1))
      → plic.active i d ≡ false
      → let d'' = bus.accept 32 claim_addr r d' in
        (plic.active i d'' ≡ false) × (plic.enabled i d'' ≡ plic.enabled i d)
  none_left r i d d' e ne keeps before =
      let (kept, on) = keeps i in
      let claimed = plic.claim_active i d in
      let waited : plic.enabled r d ≡ true =
        ap (λ k. plic.enabled k d) (sym e) ∙ (plic.claim_some d (λ z. ne (sym e ∙ z))).1 in
      let now : plic.enabled r d' ≡ true = (keeps r).1 ∙ plic.claim_enabled r d ∙ waited in
      (
        plic.complete_active r i d'
            ∙ rw (kept, claimed, e, now, ==_ne _ _ ne, before)
                (elim (Bool-cases (i == r)) [
                  | inl same ↦ rw same refl
                  | inr other ↦ rw other refl
                ]),
        plic.complete_enabled r i d' ∙ on ∙ plic.claim_enabled i d,
      )

  the_two :
      (r : ℕ) (d : D)
      → plic.pending r d ≡ true
      → ((r == 10) || (r == 33)) ≡ true
      → ((r ≡ 10) × (plic.pending 10 d ≡ true)) ⊎ ((r ≡ 33) × (plic.pending 33 d ≡ true))
  the_two r d waits on = elim (Bool-cases (r == 10)) [
    | inl e ↦ let same = (==_iff r 10).0 e in inl (same, rw same at waits)
    | inr ne ↦ let same : r ≡ 33 = (==_iff r 33).0 (rw ne at on) in inr (same, rw same at waits)
  ]

  -- The numbers that can be answered.
  pub which :
      (d : D)
      → ((i : ℕ) → i < 1024 → plic.enabled i d ≡ ((i == 10) || (i == 33)))
      → let r = (bus.answer 32 claim_addr d).0 in
        (r ≡ 0)
        ⊎ (((r ≡ 10) × (plic.pending 10 d ≡ true)) ⊎ ((r ≡ 33) × (plic.pending 33 d ≡ true)))
  which d two = elim (ℕ_discrete (bus.answer 32 claim_addr d).0 0) [
    | yes e ↦ inl e
    | no ne ↦
        let (waits, on) = plic.claim_some d ne in
        inr (the_two (bus.answer 32 claim_addr d).0 d waits (sym (two _ (plic.number d)) ∙ on))
  ]

  pub answered :
      (d : D) (r : ℕ)
      → (bus.answer 32 claim_addr d).0 % 2 ^ 32 ≡ r
      → (bus.answer 32 claim_addr d).0 ≡ r
  answered d r e = omega (arith, plic.number d, e)
