-- ===== src/Tests/Imsic.antt =====
-- Two interrupt files, each behind its pair of CSRs.
use virtio_pci_simple_driver.Prelude.{
  Bool, false, not, ◌&&◌, zero, suc, ◌+◌, ◌*◌, ◌/◌, ◌%◌, Bool-cases, inl, inr, ℕ, ◌≡◌, refl, arith,
  some, ◌==◌, ==_refl, ==_ne, if◌then◌else◌,
}
use virtio_pci_simple_driver.Prelude.Bits.{bit}
use virtio_pci_simple_driver.Imsic.{Csrs, miselect, mireg, siselect, sireg, enable}
use virtio_pci_simple_driver.Imsic.Enable.{IsWindow, IsEnabled, enable-IsEnabled}

-- What is selected, and the registers; the machine's first.
abbrev File : Type 0
File = ℕ × (ℕ → ℕ)

-- Interrupt 0 cannot be enabled.
abbrev wired : ℕ → ℕ → Bool
wired j k = not ((j == 0xc0) && (k == 0))

abbrev kept_bit : ℕ → ℕ → ℕ → ℕ
kept_bit j v old = if j == 0xc0 then v / 2 * 2 + old % 2 else v

abbrev written : ℕ → File → File
written v f = (f.0, λ j. if j == f.0 then kept_bit j v (f.1 j) else f.1 j)

low_kept :
    (v old k : ℕ) → bit k (v / 2 * 2 + old % 2) ≡ (if not (k == 0) then bit k v else bit k old)
low_kept v old zero = omega arith
low_kept v old (suc k) =
    let above : (v / 2 * 2 + old % 2) / 2 ≡ v / 2 = omega arith in
    let later : (suc k == 0) ≡ false = ground arith in rw (above, later) refl

written-bit :
    (j v old k : ℕ) → bit k (kept_bit j v old) ≡ (if wired j k then bit k v else bit k old)
written-bit j v old k = elim (Bool-cases (j == 0xc0)) [
  | inr e ↦ rw e refl
  | inl e ↦ rw e (low_kept v old k)
]

abbrev csrs : Csrs (File × File)
csrs = record {
  get = λ csr d. (if csr == mireg then d.0.1 d.0.0 else d.1.1 d.1.0, d);
  put = λ csr v d.
      if csr == miselect
      then ((v, d.0.1), d.1)
      else if csr == mireg
      then (written v d.0, d.1)
      else if csr == siselect
      then (d.0, (v, d.1.1))
      else (d.0, written v d.1);
  swap = λ csr v d. (0, d);
}

machine-IsWindow : IsWindow csrs miselect mireg (λ d. d.0.0) (λ j d. d.0.1 j) wired
machine-IsWindow = record {
  select_at = λ v d h. refl;
  select_file = λ v j d. refl;
  get_val = λ d h. refl;
  get_at = λ d. refl;
  get_file = λ j d. refl;
  put_here = λ v k d h h'. rw (==_refl d.0.0) (written-bit d.0.0 v (d.0.1 d.0.0) k);
  put_there = λ v j d ne. rw (==_ne j d.0.0 ne) refl;
}

supervisor-IsWindow : IsWindow csrs siselect sireg (λ d. d.1.0) (λ j d. d.1.1 j) wired
supervisor-IsWindow = record {
  select_at = λ v d h. refl;
  select_file = λ v j d. refl;
  get_val = λ d h. refl;
  get_at = λ d. refl;
  get_file = λ j d. refl;
  put_here = λ v k d h h'. rw (==_refl d.1.0) (written-bit d.1.0 v (d.1.1 d.1.0) k);
  put_there = λ v j d ne. rw (==_ne j d.1.0 ne) refl;
}

abbrev cleared : File × File
cleared = ((0, λ j. 0), (0, λ j. 0))

enable-IsEnabled_example :
    (d' : File × File) × (enable csrs 1 74 cleared ≡ some d')
    × IsEnabled (λ j d. d.1.1 j) 74 cleared d'
enable-IsEnabled_example =
    enable-IsEnabled csrs machine-IsWindow supervisor-IsWindow 1 74 cleared (omega arith)
      (omega arith) refl
