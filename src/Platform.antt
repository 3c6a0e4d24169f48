-- ===== src/Platform.antt =====
-- src/platform/riscv-virt.h and riscv-virt.c: the board's start and its end.
pub mod Boot
use virtio_pci_simple_driver.Prelude.{ℕ, ◌^◌, ◌==◌, bit_or, if◌then◌else◌, Option}
use virtio_pci_simple_driver.Bus.{Bus, Io, pure, ◌>>◌, write, barrier}
use virtio_pci_simple_driver.Plic
use virtio_pci_simple_driver.Uart

abbrev pub ns16550_addr : ℕ
ns16550_addr = 0x10000000

abbrev pub sifive_test_finish_addr : ℕ
sifive_test_finish_addr = 0x100000

-- `SIE_SEIE` and `SSTATUS_SIE` of include/riscv.h
abbrev pub sie_seie : ℕ
sie_seie = 2 ^ 9

abbrev pub sstatus_sie : ℕ
sstatus_sie = 2 ^ 1

-- The two CSRs that are set.
pub record Hart : Type 0 where
  pub sie : ℕ
  pub sstatus : ℕ

module _ {D : Type 0} (bus : Bus D) where
  -- `interrupts_init`
  unfoldable pub interrupts_init : Hart → Io D Hart
  interrupts_init h = do
    let h' = record h { sie = bit_or h.sie sie_seie; sstatus = bit_or h.sstatus sstatus_sie }
    Plic.init bus
    pure h'

  -- `plt_virt_init`
  unfoldable pub plt_virt_init : Hart → Io D Hart
  plt_virt_init h = do Uart.init bus ns16550_addr; interrupts_init h

  -- `putchar_`, which ignores the result.
  unfoldable pub putchar_ : (fuel c : ℕ) → Io D (Option ℕ)
  putchar_ fuel c = Uart.putc bus fuel ns16550_addr c

  -- `shutdown` up to its endless loop.
  unfoldable pub shutdown : (exit_code : ℕ) → Io D (Unit {0})
  shutdown exit_code = do
    write bus 32 sifive_test_finish_addr (if exit_code == 0 then 0x5555 else 0x3333)
    barrier
