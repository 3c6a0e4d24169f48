-- ===== src/Caps.antt =====
-- `virtio_pci_read_caps` of src/driver/virtio/virtio-pci.c: the walk over the capability list.
pub mod Walk
use virtio_pci_simple_driver.Prelude.{
  ℕ, zero, suc, ◌+◌, ◌*◌, ◌^◌, bit_and, List, [], ◌∷◌, Option, none, some, get_or, Bool, ◌||◌, ◌==◌,
  if◌then◌else◌, u64, ℤ, pos, negsuc,
}
use virtio_pci_simple_driver.Bus.{Bus, Io, pure, ◌>>=◌}
use virtio_pci_simple_driver.Pci.{config_read8, config_read64, config_read}
use virtio_pci_simple_driver.VirtioPci.{Hw}

abbrev pub pci_addr_bar0 : ℕ
pci_addr_bar0 = 0x10

abbrev pub pci_addr_cap : ℕ
pci_addr_cap = 0x34

abbrev pub pci_cap_id_vndr : ℕ
pci_cap_id_vndr = 0x09

-- `struct virtio_pci_cap`, 16 bytes; `padding` is left out.
pub record Cap : Type 0 where
  pub cap_vndr : ℕ
  pub cap_next : ℕ
  pub cap_len : ℕ
  pub cfg_type : ℕ
  pub bar : ℕ
  pub id : ℕ
  pub offset : ℕ
  pub length : ℕ

-- The kinds of the `switch`.
abbrev pub cap_common_cfg : ℕ
cap_common_cfg = 1

abbrev pub cap_notify_cfg : ℕ
cap_notify_cfg = 2

abbrev pub cap_isr_cfg : ℕ
cap_isr_cfg = 3

abbrev pub cap_device_cfg : ℕ
cap_device_cfg = 4

-- Four bytes at `i`, the lowest first.
unfoldable pub le32 : List ℕ → ℕ → ℕ
le32 bs i =
    get_or bs i 0
    + get_or bs (i + 1) 0 * 2 ^ 8
    + get_or bs (i + 2) 0 * 2 ^ 16
    + get_or bs (i + 3) 0 * 2 ^ 24

-- The bytes that `pci_config_read` stored, as the structure that they are read through.
unfoldable pub cap_of_bytes : List ℕ → Cap
cap_of_bytes bs = record {
  cap_vndr = get_or bs 0 0;
  cap_next = get_or bs 1 0;
  cap_len = get_or bs 2 0;
  cfg_type = get_or bs 3 0;
  bar = get_or bs 4 0;
  id = get_or bs 5 0;
  offset = le32 bs 8;
  length = le32 bs 12;
}

-- The test behind the loop, and the result.
abbrev pub missing : Hw → Bool
missing hw = hw.common_cfg == 0 || hw.notify_cfg == 0 || hw.device_cfg == 0 || hw.isr_cfg == 0

abbrev pub finish : Option Hw → Option (ℤ × Hw)
finish none = none
finish (some hw) = some (if missing hw then negsuc 0 else pos 0, hw)

module _ {D : Type 0} (bus : Bus D) where
  unfoldable pub get_cfg_addr : (pci_base : ℕ) → Cap → Io D ℕ
  get_cfg_addr pci_base cap = do
    bar ← config_read64 bus (u64 (pci_base + pci_addr_bar0 + 4 * cap.bar))
    pure (u64 (bit_and bar 0xffff_ffff_ffff_fff0 + cap.offset))

  -- The `switch`. Other kinds, VIRTIO_PCI_CAP_PCI_CFG among them, change nothing.
  unfoldable pub read_cap : (pci_base here : ℕ) → Cap → Hw → Io D Hw
  read_cap pci_base here cap hw =
      if cap.cfg_type == cap_common_cfg
      then (do addr ← get_cfg_addr pci_base cap; pure (record hw { common_cfg = addr }))
      else if cap.cfg_type == cap_notify_cfg
      then (do
        bs ← config_read bus 4 (u64 (here + 16))
        addr ← get_cfg_addr pci_base cap
        pure (record hw { notify_off_multiplier = le32 bs 0; notify_cfg = addr }))
      else if cap.cfg_type == cap_device_cfg
      then (do addr ← get_cfg_addr pci_base cap; pure (record hw { device_cfg = addr }))
      else if cap.cfg_type == cap_isr_cfg
      then (do addr ← get_cfg_addr pci_base cap; pure (record hw { isr_cfg = addr }))
      else pure hw

  -- One round of the loop at position `here`.
  unfoldable pub visit : (pci_base here : ℕ) → Hw → Io D (ℕ × Hw)
  visit pci_base here hw = do
    bs ← config_read bus 16 here
    let cap = cap_of_bytes bs
    hw' ← (if cap.cap_vndr == pci_cap_id_vndr then read_cap pci_base here cap hw else pure hw)
    pure (cap.cap_next, hw')

  -- `while (pos)`; `none` means that the fuel ran out.
  unfoldable pub walk : (fuel pci_base cursor : ℕ) → Hw → Io D (Option Hw)
  walk zero pci_base cursor hw = pure none
  walk (suc n) pci_base cursor hw =
      let go = (do
        (next, hw') ← visit pci_base (u64 (cursor + pci_base)) hw
        walk n pci_base next hw') in
      if cursor == 0 then pure (some hw) else go

  -- `virtio_pci_read_caps`
  unfoldable pub read_caps : (fuel pci_base : ℕ) → Hw → Io D (Option (ℤ × Hw))
  read_caps fuel pci_base hw = do
    cursor ← config_read8 bus (u64 (pci_base + pci_addr_cap))
    out ← walk fuel pci_base cursor hw
    pure (finish out)
