-- ===== src/Imsic/Enable.antt =====
-- `imsic_enable` on an interrupt file behind a pair of CSRs.
use virtio_pci_simple_driver.Prelude.{
  Bool, Bool-cases, inl, inr, ℕ, ◌+◌, ◌*◌, ◌/◌, ◌%◌, ◌^◌, ◌<◌, ◌≡◌, ◌≢◌, refl, ap, ◌∙◌, arith, ltb,
  bit_or, ◌==◌, ==_refl, ==_ne, ℕ_discrete, if◌then◌else◌, some, true,
}
use virtio_pci_simple_driver.Prelude.Bits.{bit, bit-lt, bit-bit_or}
use virtio_pci_simple_driver.Prelude.Tables.{bit-pow_wide}
use virtio_pci_simple_driver.Imsic.{
  Csrs, eie, miselect, mireg, siselect, sireg, one_shl, set_eie, enable,
}

-- Two CSRs that give access to the registers `file`, of which there are 256: the first selects one, the second reads and
-- writes it. Of the bits of a register only those that are `wired` can be written, the others stay as they are: so it
-- is with the enable bits of interrupt 0 and of the interrupts that the file does not have.
pub record IsWindow {D : Type 0} (csrs : Csrs D) (select reg : ℕ) (at : D → ℕ) (file : ℕ → D → ℕ)
    (wired : ℕ → ℕ → Bool) : Type 0 where
  pub select_at : (v : ℕ) (d : D) → v < 0x100 → at (csrs.put select v d) ≡ v
  pub select_file : (v j : ℕ) (d : D) → file j (csrs.put select v d) ≡ file j d
  pub get_val : (d : D) → at d < 0x100 → (csrs.get reg d).0 ≡ file (at d) d
  pub get_at : (d : D) → at (csrs.get reg d).1 ≡ at d
  pub get_file : (j : ℕ) (d : D) → file j (csrs.get reg d).1 ≡ file j d
  pub put_here :
      (v k : ℕ) (d : D)
      → at d < 0x100
      → k < 64
      → bit k (file (at d) (csrs.put reg v d))
        ≡ (if wired (at d) k then bit k v else bit k (file (at d) d))
  pub put_there : (v j : ℕ) (d : D) → j ≢ at d → file j (csrs.put reg v d) ≡ file j d

-- The registers with one more interrupt enabled: its bit in its word, and every other bit as before.
abbrev pub IsEnabled : {D : Type 0} (file : ℕ → D → ℕ) (which : ℕ) → D → D → Type 0
IsEnabled {D} file which d d' =
    (j k : ℕ)
    → k < 64
    → bit k (file j d') ≡ (
        if j == eie + which / 64 * 2
        then (if k == which % 64 then 1 else bit k (file j d))
        else bit k (file j d))

one_shl-lt : (b : ℕ) → b < 31 → one_shl b ≡ some (2 ^ b)
unfolding one_shl
one_shl-lt b h = let low : ltb b 31 ≡ true = ground arith in rw low refl

module _ {D : Type 0} (csrs : Csrs D) {select reg : ℕ} {at : D → ℕ} {file : ℕ → D → ℕ}
    {wired : ℕ → ℕ → Bool} (window : IsWindow csrs select reg at file wired) where
  set_eie-IsEnabled :
      (which : ℕ) (d : D)
      → which % 64 < 31
      → which < 2048
      → wired (eie + which / 64 * 2) (which % 64) ≡ true
      → (d' : D) × (set_eie csrs select reg which d ≡ some d') × IsEnabled file which d d'
  unfolding set_eie
  set_eie-IsEnabled which d small there can =
      let word : ℕ = eie + which / 64 * 2 in
      let d1 : D = csrs.put select word d in
      let d2 : D = (csrs.get reg d1).1 in
      let new : ℕ = bit_or (csrs.get reg d1).0 (2 ^ (which % 64)) in
      let low : word < 0x100 = omega arith in
      let first : at d1 ≡ word = window.select_at word d low in
      let selected : at d2 ≡ word = window.get_at d1 ∙ first in
      let kept : file word d2 ≡ file word d =
        window.get_file word d1 ∙ window.select_file word word d in
      let old : (csrs.get reg d1).0 ≡ file word d =
        window.get_val d1 (omega (arith, first, low))
        ∙ ap (λ j. file j d1) first
        ∙ window.select_file word word d in
      (
        csrs.put reg new d2,
        rw (set_eie, one_shl-lt (which % 64) small) refl,
        λ j k h. elim (ℕ_discrete j word) [
          | yes here ↦
              let written : bit k (file word (csrs.put reg new d2))
                  ≡ (if wired word k then bit k new else bit k (file word d)) =
                rw (selected, kept) at
                  (window.put_here new k d2 (omega (arith, selected, low)) h) in
              let set_bit : bit k new ≡ (if k == which % 64 then 1 else bit k (file word d)) =
                rw (bit-bit_or k, bit-pow_wide (which % 64) k (omega arith) h, old)
                  (ground (arith, bit-lt k (file word d))) in
              rw (here, ==_refl word, written)
                (elim (ℕ_discrete k (which % 64)) [
                  | yes e ↦ rw (e, can) (rw e at set_bit)
                  | no ne ↦ rw (==_ne _ _ ne) (elim (Bool-cases (wired word k)) [
                    | inl w ↦ rw w (rw (==_ne _ _ ne) at set_bit)
                    | inr w ↦ rw w refl
                  ])
                ])
          | no there ↦
              let away : j ≢ at d2 = λ e. there (e ∙ selected) in
              let same : file j (csrs.put reg new d2) ≡ file j d =
                window.put_there new j d2 away
                ∙ window.get_file j d1
                ∙ window.select_file word j d in
              rw (==_ne j word there, same) refl
        ],
      )

module _ {D : Type 0} (csrs : Csrs D) {machine_at supervisor_at : D → ℕ}
    {machine supervisor : ℕ → D → ℕ} {wired : ℕ → ℕ → Bool}
    (m : IsWindow csrs miselect mireg machine_at machine wired)
    (s : IsWindow csrs siselect sireg supervisor_at supervisor wired) where
  -- For an interrupt below 2048 that the file has, and whose number leaves a remainder below 31 when divided by 64,
  -- `imsic_enable` enables it in the
  -- file of the mode, the machine's for mode 0 and else the supervisor's: it sets the interrupt's bit in the
  -- even-numbered enable register of its 64 interrupts, and leaves every other bit of that file's registers
  -- as it was.
  pub enable-IsEnabled :
      (mode which : ℕ) (d : D)
      → which % 64 < 31
      → which < 2048
      → wired (eie + which / 64 * 2) (which % 64) ≡ true
      → (d' : D) × (enable csrs mode which d ≡ some d')
        × IsEnabled (if mode == 0 then machine else supervisor) which d d'
  unfolding enable
  enable-IsEnabled mode which d small there can = elim (ℕ_discrete mode 0) [
    | yes e ↦ rw e (set_eie-IsEnabled csrs m which d small there can)
    | no ne ↦ rw (==_ne mode 0 ne) (set_eie-IsEnabled csrs s which d small there can)
  ]
