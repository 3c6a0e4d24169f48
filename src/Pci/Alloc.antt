-- ===== src/Pci/Alloc.antt =====
-- The address allocator and the BAR sizes of `pci_device_probe`.
use virtio_pci_simple_driver.Prelude.{
  ℕ, ◌+◌, ◌-◌, ◌*◌, ◌%◌, ◌^◌, ◌≤◌, ◌<◌, ◌≡◌, arith, refl, List, [], ◌∷◌, u64,
}
use virtio_pci_simple_driver.Prelude.Pages.{page_up, mask-page_up, mask64-div, mask32-div}
use virtio_pci_simple_driver.Pci.{pcie0_mmio, page_align, alloc_mmio, bar_size64, bar_size32}

pub page_align-eq-page_up : (a : ℕ) → a + 0xfff < 2 ^ 64 → page_align a ≡ page_up a
unfolding page_align
page_align-eq-page_up a h = mask-page_up a h

-- What a series of calls of `pci_alloc_mmio` hands out: an address and a size for each call.
unfoldable pub alloc_all : (s_off : ℕ) → List ℕ → List (ℕ × ℕ)
alloc_all s_off [] = []
alloc_all s_off (sz ∷ szs) = ((alloc_mmio s_off sz).0, sz) ∷ alloc_all (alloc_mmio s_off sz).1 szs

-- The address space that such a series takes up.
unfoldable pub total_pages : List ℕ → ℕ
total_pages [] = 0
total_pages (sz ∷ szs) = page_up sz + total_pages szs

-- Regions on page boundaries from `lo` on and below `hi`, each behind the end of the one before.
abbrev pub Apart : (lo hi : ℕ) → List (ℕ × ℕ) → Type 0
Apart lo hi [] = lo ≤ hi
Apart lo hi ((addr, sz) ∷ rest) = (lo ≤ addr) × (addr % 4096 ≡ 0) × Apart (addr + sz) hi rest

-- Weakening of the lower bound.
Apart-le : (a b hi : ℕ) (rs : List (ℕ × ℕ)) → a ≤ b → Apart b hi rs → Apart a hi rs
Apart-le a b hi [] h p = omega arith
Apart-le a b hi ((addr, sz) ∷ rs) h p = (omega arith, p.1, p.2)

alloc_all-Apart_upto :
    (s_off hi : ℕ) (szs : List ℕ)
    → s_off % 4096 ≡ 0
    → s_off + total_pages szs < 2 ^ 62
    → pcie0_mmio + s_off + total_pages szs ≡ hi
    → Apart (pcie0_mmio + s_off) hi (alloc_all s_off szs)
unfolding alloc_all total_pages alloc_mmio
alloc_all-Apart_upto s_off hi [] page room e = omega arith
alloc_all-Apart_upto s_off hi (sz ∷ szs) page room e =
    let moved : u64 (s_off + page_align sz) ≡ s_off + page_up sz =
      omega (arith, page_align-eq-page_up sz (omega arith)) in
    let rest =
      alloc_all-Apart_upto (s_off + page_up sz) hi szs (omega arith) (omega arith) (omega arith) in
    (omega arith, omega arith, rw moved (Apart-le _ _ hi _ (omega arith) rest))

-- A series of calls of `pci_alloc_mmio` from a page-aligned static offset gives regions that
-- start on page boundaries and do not overlap, from PCIE0_MMIO plus the offset on, in exactly
-- the space that their sizes rounded up to pages need; as long as the offset stays below 2^62.
pub alloc_all-Apart :
    (s_off : ℕ) (szs : List ℕ)
    → s_off % 4096 ≡ 0
    → s_off + total_pages szs < 2 ^ 62
    → Apart (pcie0_mmio + s_off) (pcie0_mmio + s_off + total_pages szs) (alloc_all s_off szs)
alloc_all-Apart s_off szs page room = alloc_all-Apart_upto s_off _ szs page room refl

pub bar_size64_of_mul :
    (q flags : ℕ)
    → 0 < q
    → q * 16 < 2 ^ 64
    → flags < 16
    → bar_size64 (2 ^ 64 - q * 16 + flags) ≡ q * 16
unfolding bar_size64
bar_size64_of_mul q flags pos fits small =
    omega (arith, mask64-div (2 ^ 64 - q * 16 + flags) (omega arith))

pub bar_size32_of_mul :
    (q flags : ℕ)
    → 0 < q
    → q * 16 < 2 ^ 32
    → flags < 16
    → bar_size32 (2 ^ 32 - q * 16 + flags) ≡ q * 16
unfolding bar_size32
bar_size32_of_mul q flags pos fits small =
    omega (arith, mask32-div (2 ^ 32 - q * 16 + flags) (omega arith))
