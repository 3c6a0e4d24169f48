-- ===== src/Pci.antt =====
-- src/driver/pcie/pci.h and pci.c: configuration space, address allocation, the device probe.
-- The commented-out `pci_set_msix` is no code and is left out.
pub mod Alloc
pub mod Probe
pub mod Bars
pub mod Assign
pub mod Round
pub mod Placement
use virtio_pci_simple_driver.Prelude.{
  ℕ, zero, suc, ◌+◌, ◌-◌, ◌*◌, ◌/◌, ◌%◌, ◌^◌, bit_and, bit_or, List, [], ◌∷◌, ◌==◌, ltb,
  if◌then◌else◌, u32, u64,
}
use virtio_pci_simple_driver.Bus.{Bus, Io, pure, ◌>>=◌, ◌>>◌, barrier, read, write}

-- src/platform/riscv-virt.h and aplic.h.
abbrev pub pcie0_ecam : ℕ
pcie0_ecam = 0x30000000

abbrev pub pcie0_mmio : ℕ
pcie0_mmio = 0x40000000

abbrev pub pcie0_prefetch_addr : ℕ
pcie0_prefetch_addr = 0x400000000

abbrev pub aplic_msix0_irq : ℕ
aplic_msix0_irq = 0x80

-- `PCI_ADDR`
abbrev pub pci_addr : ℕ → ℕ
pci_addr addr = u64 (pcie0_ecam + addr)

-- `PAGE_ALIGN`
unfoldable pub page_align : ℕ → ℕ
page_align sz = bit_and (u64 (sz + 0xfff)) 0xffff_ffff_ffff_f000

-- `pci_alloc_mmio` and `pci_alloc_mmio_prefetch`: the address, and the new value of the static
-- offset. `pci_alloc_irq_number` is the same on interrupt numbers.
unfoldable pub alloc_mmio : (s_off sz : ℕ) → ℕ × ℕ
alloc_mmio s_off sz = (u64 (pcie0_mmio + s_off), u64 (s_off + page_align sz))

unfoldable pub alloc_mmio_prefetch : (s_prefetch_off sz : ℕ) → ℕ × ℕ
alloc_mmio_prefetch s_prefetch_off sz =
    (u64 (pcie0_prefetch_addr + s_prefetch_off), u64 (s_prefetch_off + page_align sz))

unfoldable pub alloc_irq_number : (n_off : ℕ) → ℕ × ℕ
alloc_irq_number n_off = (u32 (aplic_msix0_irq + n_off), u32 (n_off + 1))

-- The registers of a device as 32-bit words: `base[i]`.
abbrev pub word : (base i : ℕ) → ℕ
word base i = base + 4 * i

-- `~(x & mask) + 1` in 64 and in 32 bits: the size that a BAR reports.
unfoldable pub bar_size64 : ℕ → ℕ
bar_size64 x = u64 (2 ^ 64 - 1 - bit_and x 0xffff_ffff_ffff_fff0 + 1)

unfoldable pub bar_size32 : ℕ → ℕ
bar_size32 x = u32 (2 ^ 32 - 1 - bit_and x 0xffff_fff0 + 1)

-- `(bus << 20) | (dev << 15) | (func << 12) | (offset)` with function and offset 0.
unfoldable pub ecam_offset : (b d : ℕ) → ℕ
ecam_offset b d = bit_or (bit_or (bit_or (b * 2 ^ 20) (d * 2 ^ 15)) 0) 0

module _ {D : Type 0} (bus : Bus D) where
  unfoldable pub config_read8 : ℕ → Io D ℕ
  config_read8 offset = read bus 8 (pci_addr offset)

  unfoldable pub config_read16 : ℕ → Io D ℕ
  config_read16 offset = read bus 16 (pci_addr offset)

  unfoldable pub config_read32 : ℕ → Io D ℕ
  config_read32 offset = read bus 32 (pci_addr offset)

  unfoldable pub config_read64 : ℕ → Io D ℕ
  config_read64 offset = read bus 64 (pci_addr offset)

  unfoldable pub config_write8 : (offset val : ℕ) → Io D (Unit {0})
  config_write8 offset val = write bus 8 (pci_addr (u32 offset)) val

  unfoldable pub config_write16 : (offset val : ℕ) → Io D (Unit {0})
  config_write16 offset val = write bus 16 (pci_addr (u32 offset)) val

  unfoldable pub config_write32 : (offset val : ℕ) → Io D (Unit {0})
  config_write32 offset val = write bus 32 (pci_addr (u32 offset)) val

  -- `pci_config_read`: the bytes that it stores into `buf`, in order.
  unfoldable pub config_read : (len offset : ℕ) → Io D (List ℕ)
  config_read zero offset = pure []
  config_read (suc len) offset = do
    b ← read bus 8 (pci_addr offset)
    bs ← config_read len (u64 (offset + 1))
    pure (b ∷ bs)

  -- The branch of `pci_device_probe` for a 64-bit BAR. `prefetchable` was set to 0. The result is
  -- the next BAR to look at and the static offset of `pci_alloc_mmio`.
  unfoldable pub assign_bar64 : (base i orig s_off : ℕ) → Io D (ℕ × ℕ)
  assign_bar64 base i orig s_off = do
    write bus 32 (word base (4 + i)) 0xffff_ffff
    write bus 32 (word base (4 + i + 1)) 0xffff_ffff
    barrier
    hi ← read bus 32 (word base (4 + i + 1))
    lo ← read bus 32 (word base (4 + i))
    let sz = bar_size64 (bit_or (hi * 2 ^ 32) lo)
    let grant = alloc_mmio s_off sz
    if sz == 0 then pure (i + 2, s_off) else (do
      write bus 32 (word base (4 + i)) (bit_or orig (u32 grant.0))
      write bus 32 (word base (4 + i + 1)) (u32 (grant.0 / 2 ^ 32))
      pure (i + 2, grant.1))

  -- The branch for a 32-bit BAR; the last read is that of a `printf`.
  unfoldable pub assign_bar32 : (base i orig s_off : ℕ) → Io D (ℕ × ℕ)
  assign_bar32 base i orig s_off = do
    write bus 32 (word base (4 + i)) 0xffff_ffff
    barrier
    x ← read bus 32 (word base (4 + i))
    let sz = bar_size32 x
    let grant = alloc_mmio s_off sz
    if sz == 0 then pure (i + 1, s_off) else (do
      write bus 32 (word base (4 + i)) (bit_or orig (u32 grant.0))
      _ ← read bus 32 (word base (4 + i))
      pure (i + 1, grant.1))

  -- One round of the BAR loop.
  unfoldable pub assign_bar : (base i s_off : ℕ) → Io D (ℕ × ℕ)
  assign_bar base i s_off = do
    old ← read bus 32 (word base (4 + i))
    let orig = bit_and old 0xf
    if bit_and old 1 == 0
        then (if bit_and old 4 == 0
            then assign_bar32 base i orig s_off
            else assign_bar64 base i orig s_off)
        else pure (i + 1, s_off)

  -- `for (i = 0; i < 6; i++)`; each round moves `i` on, so six rounds are enough.
  unfoldable pub assign_bars : (rounds base i s_off : ℕ) → Io D ℕ
  assign_bars zero base i s_off = pure s_off
  assign_bars (suc n) base i s_off =
      let go = (do (i', s_off') ← assign_bar base i s_off; assign_bars n base i' s_off') in
      if ltb i 6 then go else pure s_off

  -- One device of the scan. The pair is `ret` and the static offset.
  unfoldable pub probe_device : (pci_id off : ℕ) → ℕ × ℕ → Io D (ℕ × ℕ)
  probe_device pci_id off (ret, s_off) = do
    id ← read bus 32 (pci_addr off)
    if id == pci_id
        then (do
          write bus 32 (word (pci_addr off) 1) 7
          barrier
          s_off' ← assign_bars 6 (pci_addr off) 0 s_off
          pure (off, s_off'))
        else pure (ret, s_off)

  -- The inner loop with `n` rounds left, at device `d`.
  unfoldable pub probe_devices : (n pci_id b d : ℕ) → ℕ × ℕ → Io D (ℕ × ℕ)
  probe_devices zero pci_id b d s = pure s
  probe_devices (suc n) pci_id b d s = do
    s' ← probe_device pci_id (ecam_offset b d) s
    probe_devices n pci_id b (d + 1) s'

  -- The outer loop.
  unfoldable pub probe_buses : (n pci_id b : ℕ) → ℕ × ℕ → Io D (ℕ × ℕ)
  probe_buses zero pci_id b s = pure s
  probe_buses (suc n) pci_id b s = do
    s' ← probe_devices 32 pci_id b 0 s
    probe_buses n pci_id (b + 1) s'

  -- `pci_device_probe`: the offset found, 0 if none, and the static offset.
  unfoldable pub device_probe : (vendor_id device_id s_off : ℕ) → Io D (ℕ × ℕ)
  device_probe vendor_id device_id s_off =
      probe_buses 255 (bit_or (device_id * 2 ^ 16) vendor_id) 0 (0, s_off)
