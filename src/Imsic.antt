-- ===== src/Imsic.antt =====
-- src/platform/imsic.c: the message-signalled interrupt file of a hart, behind CSRs. Nothing calls it in
-- the build with the PLIC.
pub mod Enable
use virtio_pci_simple_driver.Prelude.{
  ℕ, ◌+◌, ◌-◌, ◌*◌, ◌/◌, ◌%◌, ◌^◌, bit_or, ltb, ◌==◌, if◌then◌else◌, Option, none, some,
}

-- The hart's CSRs. A read may change the state behind them; `swap` is one access.
pub record Csrs (D : Type 0) : Type 0 where
  pub get : (csr : ℕ) → D → ℕ × D
  pub put : (csr val : ℕ) → D → D
  pub swap : (csr val : ℕ) → D → ℕ × D

abbrev pub imsic0_m_addr : ℕ
imsic0_m_addr = 0x24000000

abbrev pub imsic0_s_addr : ℕ
imsic0_s_addr = 0x28000000

abbrev pub hart_stride : ℕ
hart_stride = 0x1000

abbrev pub miselect : ℕ
miselect = 0x350

abbrev pub mireg : ℕ
mireg = 0x351

abbrev pub mtopei : ℕ
mtopei = 0x35C

abbrev pub siselect : ℕ
siselect = 0x150

abbrev pub sireg : ℕ
sireg = 0x151

abbrev pub stopei : ℕ
stopei = 0x15C

abbrev pub eidelivery : ℕ
eidelivery = 0x70

abbrev pub eithreshold : ℕ
eithreshold = 0x72

abbrev pub eie : ℕ
eie = 0xC0

-- `imsic_get_addr`
unfoldable pub get_addr : (mode hart : ℕ) → ℕ
get_addr mode hart =
    if mode == 0 then imsic0_m_addr + hart_stride * hart else imsic0_s_addr + hart_stride * hart

-- `1 << bit`, an `int`, as the `u64` that it becomes: bit 31 is the sign. `none` is a shift by the width
-- of `int` or more, which C leaves undefined.
unfoldable pub one_shl : (bit : ℕ) → Option ℕ
one_shl bit =
    if ltb bit 31 then some (2 ^ bit) else if bit == 31 then some (2 ^ 64 - 2 ^ 31) else none

module _ {D : Type 0} (csrs : Csrs D) where
  -- One branch of `imsic_enable`.
  unfoldable pub set_eie : (select reg which : ℕ) → D → Option D
  set_eie select reg which d =
      let d' = csrs.put select (eie + (which / 64) * 2) d in
      let r = csrs.get reg d' in
      elim (one_shl (which % 64)) [
        | none ↦ none
        | some one ↦ some (csrs.put reg (bit_or r.0 one) r.1)
      ]

  -- `imsic_enable`
  unfoldable pub enable : (mode which : ℕ) → D → Option D
  enable mode which d =
      if mode == 0 then set_eie miselect mireg which d else set_eie siselect sireg which d

  -- `imsic_get_irq`
  unfoldable pub get_irq : (mode : ℕ) → D → ℕ × D
  get_irq mode d =
      let r = if mode == 0 then csrs.swap mtopei 0 d else csrs.swap stopei 0 d in
      (r.0 / 2 ^ 16, r.1)

  -- `imsic_init`
  unfoldable pub init : D → D
  init d =
      csrs.put sireg 0
        (csrs.put siselect eithreshold (csrs.put sireg 1 (csrs.put siselect eidelivery d)))
