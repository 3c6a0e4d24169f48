-- ===== src/Tests/Bars.antt =====
-- A virtio function with one 32-bit and one 64-bit BAR.
use native.Mathlib.Nat.{mod-eq_of_lt}
use virtio_pci_simple_driver.Prelude.{
  ℕ, ◌+◌, ◌-◌, ◌/◌, ◌%◌, ◌^◌, ◌<◌, ◌≡◌, refl, arith, List, [], ◌∷◌, if◌then◌else◌, ◌==◌, ==_refl,
  ==_ne, ℕ_discrete,
}
use virtio_pci_simple_driver.Bus.{Bus, World}
use virtio_pci_simple_driver.Pci.{word, pcie0_mmio, assign_bars}
use virtio_pci_simple_driver.Pci.Alloc.{total_pages}
use virtio_pci_simple_driver.Pci.Bars.{Shape, fixed, masked, whole, value, HasBars, IsBarSize}
use virtio_pci_simple_driver.Pci.Placement.{
  Bar, absent, mem32, mem64, sizes, Placed, assign_bars-Placed,
}

abbrev base : ℕ
base = 0x3000_8000

abbrev bars : List Bar
bars = absent ∷ mem32 4096 0 ∷ absent ∷ absent ∷ mem64 16384 12 ∷ []

abbrev shape : ℕ → Shape
shape j =
    if j == 1
    then masked 4096 0
    else if j == 4
    then masked 16384 12
    else if j == 5
    then whole
    else fixed 0

-- The register at an address, and the registers as what was last written into them.
abbrev reg_of : ℕ → ℕ
reg_of a = (a - base) / 4 - 4

reg_of-word : (j : ℕ) → reg_of (word base (4 + j)) ≡ j
reg_of-word j = omega arith

abbrev registers : Bus (ℕ → ℕ)
registers = record {
  answer = λ w a d. (value (shape (reg_of a)) (d (reg_of a) % 2 ^ 32), d);
  accept = λ w a v d. λ k. if k == reg_of a then v else d k;
}

value-shape_lt : (j r : ℕ) → r < 2 ^ 32 → value (shape j) r < 2 ^ 32
value-shape_lt j r h = elim (ℕ_discrete j 1) [
  | yes e ↦ rw e (omega arith)
  | no n ↦ elim (ℕ_discrete j 4) [
    | yes e ↦ rw e (omega (arith))
    | no n' ↦ elim (ℕ_discrete j 5) [
      | yes e ↦ rw e h
      | no n'' ↦ rw (==_ne j 1 n, ==_ne j 4 n', ==_ne j 5 n'') (omega arith)
    ]
  ]
]

registers-HasBars : HasBars registers base shape
registers-HasBars = record {
  raw = λ j d. d j % 2 ^ 32;
  reads =
      λ j d h. rw (reg_of-word j) (mod-eq_of_lt (value-shape_lt j (d j % 2 ^ 32) (omega arith)));
  read_keeps = λ j k d. refl;
  writes = λ j v k d.
      rw (reg_of-word j)
        (elim (ℕ_discrete k j) [ yes e ↦ rw (e, ==_refl j) refl | no n ↦ rw (==_ne k j n) refl ]);
}

small-IsBarSize : IsBarSize 4096
small-IsBarSize = record { least = omega arith; most = omega arith; whole16 = refl; divides = refl }

large-IsBarSize : IsBarSize 16384
large-IsBarSize = record { least = omega arith; most = omega arith; whole16 = refl; divides = refl }

abbrev blank : World (ℕ → ℕ)
blank = record { dev = λ k. 0; log = [] }

assign_bars-Placed_example :
    let (out, τ) = assign_bars registers 6 base 0 0x2000 blank in
    (out ≡ 0x2000 + total_pages (sizes bars))
    × Placed (λ k. registers-HasBars.raw k τ.dev) 0 (pcie0_mmio + 0x2000) bars
assign_bars-Placed_example =
    assign_bars-Placed registers-HasBars bars 0x2000 blank
      (
        refl,
        (
          refl,
          small-IsBarSize,
          omega arith,
          refl,
          (refl, (refl, (refl, refl, large-IsBarSize, omega arith, refl, refl))),
        ),
      )
      refl (unfold total_pages in unfold sizes in omega arith)
