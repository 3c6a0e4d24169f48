-- ===== src/Plic.antt =====
-- src/platform/plic.h and plic.c: the interrupt controller.
pub mod Enable
pub mod Controller
use virtio_pci_simple_driver.Prelude.{ℕ, ◌+◌, ◌-◌, ◌*◌, ◌/◌, ◌%◌, ◌^◌, bit_or, u32}
use virtio_pci_simple_driver.Bus.{Bus, Io, pure, ◌>>=◌, ◌>>◌, read, write}

abbrev pub plic0_addr : ℕ
plic0_addr = 0x0c000000

abbrev pub uart0_irq : ℕ
uart0_irq = 0x0a

abbrev pub pcie_irq_pinb : ℕ
pcie_irq_pinb = 0x21

-- The register addresses, for context 1.
abbrev pub priority : ℕ
priority = plic0_addr

abbrev pub enable_base : ℕ
enable_base = plic0_addr + 0x2000 + 0x80

abbrev pub threshold : ℕ
threshold = plic0_addr + 0x200000 + 0x1000

abbrev pub claim_addr : ℕ
claim_addr = plic0_addr + 0x200004 + 0x1000

module _ {D : Type 0} (bus : Bus D) where
  -- `plic_init`
  unfoldable pub init : Io D (Unit {0})
  init = do
    write bus 32 (priority + uart0_irq * 4) 1
    write bus 32 threshold 0
    write bus 32 enable_base (2 ^ uart0_irq)

  -- `plic_enable`, for an `irq` that is not negative.
  unfoldable pub enable : (irq : ℕ) → Io D (Unit {0})
  enable irq = do
    write bus 32 (priority + irq * 4) 1
    let idx = irq / 32
    let addr = u32 (enable_base + 4 * idx)
    old ← read bus 32 addr
    write bus 32 addr (bit_or old (2 ^ (irq - 32 * idx)))

  -- `plic_claim`
  unfoldable pub claim : Io D ℕ
  claim = read bus 32 claim_addr

  -- `plic_complete`
  unfoldable pub complete : (irq : ℕ) → Io D (Unit {0})
  complete irq = write bus 32 claim_addr irq
