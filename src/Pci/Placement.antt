-- ===== src/Pci/Placement.antt =====
-- The BAR loop of `pci_device_probe` on a device with BARs of every kind.
use virtio_pci_simple_driver.Prelude.{
  ℕ, zero, suc, ◌+◌, ◌/◌, ◌%◌, ◌^◌, ◌≤◌, ◌<◌, ◌≡◌, refl, ap, sym, subst, ◌∙◌, arith, true, ltb,
  List, [], ◌∷◌,
}
use virtio_pci_simple_driver.Prelude.Pages.{page_up}
use virtio_pci_simple_driver.Bus.{Bus, World}
use virtio_pci_simple_driver.Pci.{pcie0_mmio, assign_bar, assign_bars}
use virtio_pci_simple_driver.Pci.Alloc.{total_pages}
use virtio_pci_simple_driver.Pci.Bars.{Shape, fixed, masked, whole, HasBars, IsBarSize}
use virtio_pci_simple_driver.Pci.Round.{
  assign_bar-absent, assign_bar-ports, assign_bar-mem32, assign_bar-mem64,
}

-- A BAR, with its size and the flags in its lowest four bits.
pub data Bar : Type 0 where
  absent : Bar
  ports mem32 mem64 : (sz flags : ℕ) → Bar

-- What the six registers look like, from `i` on.
abbrev pub Laid : (ℕ → Shape) → ℕ → List Bar → Type 0
Laid shape i [] = i ≡ 6
Laid shape i (absent ∷ bs) = (shape i ≡ fixed 0) × Laid shape (i + 1) bs
Laid shape i (ports sz flags ∷ bs) =
    (shape i ≡ masked sz flags) × (sz % 2 ≡ 0) × (flags % 2 ≡ 1) × Laid shape (i + 1) bs
Laid shape i (mem32 sz flags ∷ bs) =
    (shape i ≡ masked sz flags)
    × IsBarSize sz
    × (flags < 16)
    × (flags % 8 ≡ 0)
    × Laid shape (i + 1) bs
Laid shape i (mem64 sz flags ∷ bs) =
    (shape i ≡ masked sz flags)
    × (shape (i + 1) ≡ whole)
    × IsBarSize sz
    × (flags < 16)
    × (flags % 8 ≡ 4)
    × Laid shape (i + 2) bs

-- The sizes for which an address is allocated.
unfoldable pub sizes : List Bar → List ℕ
sizes [] = []
sizes (absent ∷ bs) = sizes bs
sizes (ports sz flags ∷ bs) = sizes bs
sizes (mem32 sz flags ∷ bs) = sz ∷ sizes bs
sizes (mem64 sz flags ∷ bs) = sz ∷ sizes bs

-- Registers that hold, from `i` on, the addresses behind `addr`, one BAR after the other.
abbrev pub Placed : (raw : ℕ → ℕ) (i addr : ℕ) → List Bar → Type 0
Placed raw i addr [] = Unit
Placed raw i addr (absent ∷ bs) = Placed raw (i + 1) addr bs
Placed raw i addr (ports sz flags ∷ bs) = Placed raw (i + 1) addr bs
Placed raw i addr (mem32 sz flags ∷ bs) =
    (raw i ≡ flags + addr % 2 ^ 32) × Placed raw (i + 1) (addr + page_up sz) bs
Placed raw i addr (mem64 sz flags ∷ bs) =
    (raw i ≡ flags + addr % 2 ^ 32)
    × (raw (i + 1) ≡ addr / 2 ^ 32)
    × Placed raw (i + 2) (addr + page_up sz) bs

Laid-le : (shape : ℕ → Shape) (i : ℕ) (bs : List Bar) → Laid shape i bs → i ≤ 6
Laid-le shape i [] e = omega (arith, e)
Laid-le shape i (absent ∷ bs) l = omega (arith, Laid-le shape (i + 1) bs l.1)
Laid-le shape i (ports sz flags ∷ bs) l = omega (arith, Laid-le shape (i + 1) bs l.3)
Laid-le shape i (mem32 sz flags ∷ bs) l = omega (arith, Laid-le shape (i + 1) bs l.4)
Laid-le shape i (mem64 sz flags ∷ bs) l = omega (arith, Laid-le shape (i + 2) bs l.5)

Laid-lt : (shape : ℕ → Shape) (i : ℕ) (b : Bar) (bs : List Bar) → Laid shape i (b ∷ bs) → i < 6
Laid-lt shape i absent bs l = omega (arith, Laid-le shape (i + 1) bs l.1)
Laid-lt shape i (ports sz flags) bs l = omega (arith, Laid-le shape (i + 1) bs l.3)
Laid-lt shape i (mem32 sz flags) bs l = omega (arith, Laid-le shape (i + 1) bs l.4)
Laid-lt shape i (mem64 sz flags) bs l = omega (arith, Laid-le shape (i + 2) bs l.5)

placed : (sz s_off : ℕ) → pcie0_mmio + (s_off + page_up sz) ≡ pcie0_mmio + s_off + page_up sz
placed sz s_off = omega arith

ltb_lt : (a b : ℕ) → a < b → ltb a b ≡ true
ltb_lt a b h = ground arith

module _ {D : Type 0} {bus : Bus D} {base : ℕ} {shape : ℕ → Shape}
    (has : HasBars bus base shape) where
  -- One round of the loop, and its end.
  assign_bars-round :
      (n i s_off i' s_off' : ℕ) (σ : World D)
      → i < 6
      → (assign_bar bus base i s_off σ).0 ≡ (i', s_off')
      → assign_bars bus (suc n) base i s_off σ
        ≡ assign_bars bus n base i' s_off' (assign_bar bus base i s_off σ).1
  unfolding assign_bars
  assign_bars-round n i s_off i' s_off' σ more e =
      rw (ltb_lt i 6 more)
        (ap (λ o. assign_bars bus n base o.0 o.1 (assign_bar bus base i s_off σ).1) e)

  assign_bars-end : (n s_off : ℕ) (σ : World D) → assign_bars bus n base 6 s_off σ ≡ (s_off, σ)
  unfolding assign_bars
  assign_bars-end zero s_off σ = refl
  assign_bars-end (suc n) s_off σ = refl

  -- What the rounds from register `i` on arrive at. What the registers below `i` hold stays.
  abbrev Settled : (i s_off : ℕ) → List Bar → World D → ℕ × World D → Type 0
  Settled i s_off bs σ (out, τ) =
      (out ≡ s_off + total_pages (sizes bs))
      × Placed (λ k. has.raw k τ.dev) i (pcie0_mmio + s_off) bs
      × ((k : ℕ) → k < i → has.raw k τ.dev ≡ has.raw k σ.dev)

  assign_bars-Placed_upto :
      (bs : List Bar) (n i s_off : ℕ) (σ : World D)
      → 6 ≤ n + i
      → Laid shape i bs
      → s_off % 4096 ≡ 0
      → s_off + total_pages (sizes bs) < 2 ^ 62
      → Settled i s_off bs σ (assign_bars bus n base i s_off σ)
  unfolding sizes total_pages
  assign_bars-Placed_upto [] n i s_off σ enough laid page room =
      rw (laid, assign_bars-end n s_off σ) (omega arith, tt, λ k below. refl)
  assign_bars-Placed_upto (b ∷ bs) zero i s_off σ enough laid page room =
      absurd (omega (arith, Laid-lt shape i b bs laid))
  assign_bars-Placed_upto (absent ∷ bs) (suc n) i s_off σ enough laid page room =
      let more = Laid-lt shape i absent bs laid in
      let here = assign_bar-absent has i s_off σ more laid.0 in
      let next = (assign_bar bus base i s_off σ).1 in
      let rest = assign_bars-Placed_upto bs n (i + 1) s_off next (omega arith) laid.1 page room in
      subst (Settled i s_off (absent ∷ bs) σ) (sym (assign_bars-round n i s_off _ _ σ more here.0))
        (rest.0, rest.1, λ k below. rest.2 k (omega arith) ∙ here.1 k below)
  assign_bars-Placed_upto (ports sz flags ∷ bs) (suc n) i s_off σ enough laid page room =
      let more = Laid-lt shape i (ports sz flags) bs laid in
      let here = assign_bar-ports has i s_off sz flags σ more laid.0 laid.1 laid.2 in
      let next = (assign_bar bus base i s_off σ).1 in
      let rest = assign_bars-Placed_upto bs n (i + 1) s_off next (omega arith) laid.3 page room in
      subst (Settled i s_off (ports sz flags ∷ bs) σ)
        (sym (assign_bars-round n i s_off _ _ σ more here.0))
        (rest.0, rest.1, λ k below. rest.2 k (omega arith) ∙ here.1 k below)
  assign_bars-Placed_upto (mem32 sz flags ∷ bs) (suc n) i s_off σ enough laid page room =
      let more = Laid-lt shape i (mem32 sz flags) bs laid in
      let here =
        assign_bar-mem32 has i s_off sz flags σ more laid.0 laid.1 laid.2 laid.3 page
          (omega arith) in
      let next = (assign_bar bus base i s_off σ).1 in
      let rest =
        assign_bars-Placed_upto bs n (i + 1) (s_off + page_up sz) next (omega arith) laid.4
          (omega arith) (omega arith) in
      subst (Settled i s_off (mem32 sz flags ∷ bs) σ)
        (sym (assign_bars-round n i s_off _ _ σ more here.0))
        (
          omega (arith, rest.0),
          (rest.2 i (omega arith) ∙ here.1, rw (← placed sz s_off) rest.1),
          λ k below. rest.2 k (omega arith) ∙ here.2 k below,
        )
  assign_bars-Placed_upto (mem64 sz flags ∷ bs) (suc n) i s_off σ enough laid page room =
      let more = Laid-lt shape i (mem64 sz flags) bs laid in
      let pair : i + 1 < 6 = omega (arith, Laid-le shape (i + 2) bs laid.5) in
      let here =
        assign_bar-mem64 has i s_off sz flags σ pair laid.0 laid.1 laid.2 laid.3 laid.4 page
          (omega arith) in
      let next = (assign_bar bus base i s_off σ).1 in
      let rest =
        assign_bars-Placed_upto bs n (i + 2) (s_off + page_up sz) next (omega arith) laid.5
          (omega arith) (omega arith) in
      subst (Settled i s_off (mem64 sz flags ∷ bs) σ)
        (sym (assign_bars-round n i s_off _ _ σ more here.0))
        (
          omega (arith, rest.0),
          (
            rest.2 i (omega arith) ∙ here.1,
            rest.2 (i + 1) (omega arith) ∙ here.2,
            rw (← placed sz s_off) rest.1,
          ),
          λ k below. rest.2 k (omega arith) ∙ here.3 k below,
        )

  -- For a device whose six registers are laid out as a list of BARs that are absent, I/O,
  -- 32-bit or 64-bit memory BARs, each memory BAR with a size from 16 to below 2^32 that
  -- divides 2^32 and is a multiple of 16 and with four bits of flags, and a page-aligned
  -- static offset that stays below 2^62: the BAR loop has last written to the first register
  -- of each memory BAR its flags with the low word of the next address of the MMIO region, to
  -- the second register of a 64-bit BAR the high word, and has moved the offset on by the
  -- sizes of the memory BARs, each rounded up to pages.
  pub assign_bars-Placed :
      (bs : List Bar) (s_off : ℕ) (σ : World D)
      → Laid shape 0 bs
      → s_off % 4096 ≡ 0
      → s_off + total_pages (sizes bs) < 2 ^ 62
      → let (out, τ) = assign_bars bus 6 base 0 s_off σ in
        (out ≡ s_off + total_pages (sizes bs))
        × Placed (λ k. has.raw k τ.dev) 0 (pcie0_mmio + s_off) bs
  assign_bars-Placed bs s_off σ laid page room =
      let done = assign_bars-Placed_upto bs 6 0 s_off σ (omega arith) laid page room in
      (done.0, done.1)
