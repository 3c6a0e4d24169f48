-- ===== src/Uart.antt =====
-- src/driver/ns16550.c: the console, a 16550.
pub mod Echo
pub mod Wait
pub mod Keeps
use virtio_pci_simple_driver.Prelude.{
  ℕ, zero, suc, ◌+◌, bit_and, bit_or, ◌==◌, if◌then◌else◌, ℤ, pos, negsuc, Option, none, some,
}
use virtio_pci_simple_driver.Bus.{Bus, Io, pure, ◌>>=◌, ◌>>◌, read, write}

-- The registers' offsets.
abbrev pub rhr_offset : ℕ
rhr_offset = 0

abbrev pub thr_offset : ℕ
thr_offset = 0

abbrev pub dll_offset : ℕ
dll_offset = 0

abbrev pub ier_offset : ℕ
ier_offset = 1

abbrev pub dlm_offset : ℕ
dlm_offset = 1

abbrev pub fcr_offset : ℕ
fcr_offset = 2

abbrev pub lcr_offset : ℕ
lcr_offset = 3

abbrev pub lsr_offset : ℕ
lsr_offset = 5

abbrev pub lsr_dr : ℕ
lsr_dr = 0x01

abbrev pub lsr_thre : ℕ
lsr_thre = 0x20

-- The values that are written to the control registers.
abbrev pub lcr_8n1 : ℕ
lcr_8n1 = 0x03

abbrev pub lcr_dlab : ℕ
lcr_dlab = 0x80

abbrev pub ier_rdi : ℕ
ier_rdi = 0x01

abbrev pub fcr_fifo_en : ℕ
fcr_fifo_en = 0x01

abbrev pub fcr_rxsr : ℕ
fcr_rxsr = 0x02

abbrev pub fcr_txsr : ℕ
fcr_txsr = 0x04

module _ {D : Type 0} (bus : Bus D) where
  -- `UartPutc`, with `gs_uart_base` at `base`. `none` means that the fuel for the wait ran out.
  unfoldable pub putc : (fuel base c : ℕ) → Io D (Option ℕ)
  putc zero base c = pure none
  putc (suc n) base c = do
    lsr ← read bus 8 (base + lsr_offset)
    let go = putc n base c
    if bit_and lsr lsr_thre == 0 then go else (do write bus 8 (base + thr_offset) c; pure (some c))

  -- `UartGetc`
  unfoldable pub getc : (base : ℕ) → Io D ℤ
  getc base = do
    lsr ← read bus 8 (base + lsr_offset)
    if bit_and lsr lsr_dr == 0
        then pure (negsuc 0)
        else (do c ← read bus 8 (base + rhr_offset); pure (pos c))

  -- `UartOut`, which reads, whatever it is given.
  unfoldable pub out : (base c : ℕ) → Io D ℤ
  out base c = getc base

  -- `UartIsr`. The fuel bounds the characters, and the wait for each of them.
  unfoldable pub isr : (fuel base : ℕ) → Io D (Option (Unit {0}))
  isr zero base = pure none
  isr (suc n) base = do
    c ← getc base
    elim c [
      | negsuc _ ↦ pure (some tt)
      | pos c ↦ do sent ← putc (suc n) base c; elim sent [ none ↦ pure none | some _ ↦ isr n base ]
    ]

  -- `UartInit`: interrupts off, the divisor behind DLAB, 8N1, the FIFOs reset and on, the receiver's interrupt on.
  unfoldable pub init : (base_addr : ℕ) → Io D (Unit {0})
  init base_addr = do
    write bus 8 (base_addr + ier_offset) 0x00
    write bus 8 (base_addr + lcr_offset) lcr_dlab
    write bus 8 (base_addr + dll_offset) 0x01
    write bus 8 (base_addr + dlm_offset) 0x00
    write bus 8 (base_addr + lcr_offset) lcr_8n1
    write bus 8 (base_addr + fcr_offset) (bit_or (bit_or fcr_fifo_en fcr_rxsr) fcr_txsr)
    write bus 8 (base_addr + ier_offset) ier_rdi
