-- ===== src/Aplic.antt =====
-- src/platform/aplic.h and aplic.c: the advanced interrupt controller. `aplic` is the address of the `struct aplic`.
pub mod Enable
use virtio_pci_simple_driver.Prelude.{
  ℕ, ◌+◌, ◌-◌, ◌*◌, ◌/◌, ◌%◌, ◌^◌, bit_and, bit_or, ◌==◌, if◌then◌else◌, u32, u64,
}
use virtio_pci_simple_driver.Bus.{Bus, Io, pure, ◌>>=◌, ◌>>◌, read, write}

abbrev pub aplic0_m_addr : ℕ
aplic0_m_addr = 0x0c000000

abbrev pub aplic0_s_addr : ℕ
aplic0_s_addr = 0x0d000000

abbrev pub supervisor : ℕ
supervisor = 1

abbrev pub dm_direct : ℕ
dm_direct = 0

abbrev pub dm_msi : ℕ
dm_msi = 1

abbrev pub sm_level_high : ℕ
sm_level_high = 6

-- The fields of `struct aplic` that the code writes, each where the fields before it end.
abbrev pub domaincfg_field : ℕ
domaincfg_field = 0

abbrev pub sourcecfg_field : ℕ
sourcecfg_field = domaincfg_field + 4

abbrev pub setip_field : ℕ
setip_field = sourcecfg_field + 4 * 1023 + 0xBC0 + 16 + 0x30

abbrev pub in_clrip_field : ℕ
in_clrip_field = setip_field + 4 * 32 + 92 + 4 + 0x20

abbrev pub setie_field : ℕ
setie_field = in_clrip_field + 4 * 32 + 92 + 4 + 32

abbrev pub clrie_field : ℕ
clrie_field = setie_field + 4 * 32 + 92 + 4 + 32

abbrev pub target_field : ℕ
target_field = clrie_field + 4 * 32 + 92 + 4 + 32 + 8 + 4088 + 4

-- The offsets that the file names.
abbrev pub sourcecfg : ℕ
sourcecfg = 0x0004

abbrev pub setie : ℕ
setie = 0x1E00

abbrev pub clrie : ℕ
clrie = 0x1F00

abbrev pub target : ℕ
target = 0x3004

abbrev pub idc : ℕ
idc = 0x4000

-- `aplic_get_addr`
unfoldable pub get_addr : (aplic_mode : ℕ) → ℕ
get_addr aplic_mode = if aplic_mode == 0 then aplic0_m_addr else aplic0_s_addr

module _ {D : Type 0} (bus : Bus D) where
  -- `aplic_set_domaincfg`
  unfoldable pub set_domaincfg : (aplic dm_mode : ℕ) → Io D (Unit {0})
  set_domaincfg aplic dm_mode =
      write bus 32 (aplic + domaincfg_field) (bit_or (bit_or (1 * 2 ^ 8) (u32 (dm_mode * 2 ^ 2))) 0)

  -- `aplic_set_sourcecfg`, for an `irq` from 1 on.
  unfoldable pub set_sourcecfg : (aplic irq irq_mode : ℕ) → Io D (Unit {0})
  set_sourcecfg aplic irq irq_mode = write bus 32 (aplic + sourcecfg_field + 4 * (irq - 1)) irq_mode

  -- `aplic_set_ip`
  unfoldable pub set_ip : (aplic irq pending : ℕ) → Io D (Unit {0})
  set_ip aplic irq pending =
      if pending == 0
      then write bus 32 (aplic + in_clrip_field + 4 * (irq / 32)) (2 ^ (irq % 32))
      else write bus 32 (aplic + setip_field + 4 * (irq / 32)) (2 ^ (irq % 32))

  -- `aplic_set_ie`
  unfoldable pub set_ie : (aplic irq enable : ℕ) → Io D (Unit {0})
  set_ie aplic irq enable =
      if enable == 0
      then write bus 32 (aplic + clrie_field + 4 * (irq / 32)) (2 ^ (irq % 32))
      else write bus 32 (aplic + setie_field + 4 * (irq / 32)) (2 ^ (irq % 32))

  -- `aplic_set_target_direct`
  unfoldable pub set_target_direct : (aplic irq hart prio : ℕ) → Io D (Unit {0})
  set_target_direct aplic irq hart prio =
      write bus 32 (aplic + target_field + 4 * (irq - 1))
        (bit_or (hart * 2 ^ 18) (bit_and prio 0xFF))

  -- `aplic_set_target_msi`
  unfoldable pub set_target_msi : (aplic irq hart guest eiid : ℕ) → Io D (Unit {0})
  set_target_msi aplic irq hart guest eiid =
      write bus 32 (aplic + target_field + 4 * (irq - 1))
        (bit_or (bit_or (hart * 2 ^ 18) (guest * 2 ^ 12)) eiid)

  -- `aplic_set_idc`
  unfoldable pub set_idc : (aplic hart idelivery ithreshold : ℕ) → Io D (Unit {0})
  set_idc aplic hart idelivery ithreshold = do
    let addr = u64 (aplic + idc + 32 * hart)
    write bus 32 (addr + 0x00) idelivery
    write bus 32 (addr + 0x08) ithreshold

  -- `aplic_get_claimi`
  unfoldable pub get_claimi : (aplic_mode hart : ℕ) → Io D ℕ
  get_claimi aplic_mode hart = do
    claimi ← read bus 32 (u64 (get_addr aplic_mode + idc + 32 * hart) + 0x1C)
    pure (claimi / 2 ^ 16)

  -- `aplic_enable_irq`
  unfoldable pub enable_irq : (aplic_mode dm_mode irq enable : ℕ) → Io D (Unit {0})
  enable_irq aplic_mode dm_mode irq enable = do
    let aplic = get_addr aplic_mode
    if dm_mode == dm_msi
        then (do
          set_target_msi aplic irq 0 0 irq
          set_sourcecfg aplic irq sm_level_high
          set_ie aplic irq enable)
        else (do
          set_target_direct aplic irq 0 1
          set_sourcecfg aplic irq sm_level_high
          set_ie aplic irq enable)

  -- `aplic_init`
  unfoldable pub init : (dm_mode : ℕ) → Io D (Unit {0})
  init dm_mode = do
    let aplic = get_addr supervisor
    set_domaincfg aplic dm_mode
    if dm_mode == dm_direct then set_idc aplic 0 1 0 else pure tt
