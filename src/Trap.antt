-- ===== src/Trap.antt =====
-- src/cpu/trap-handler.c: what the trap entry calls.
pub mod Disk
pub mod Around
pub mod Claims
pub mod Sources
pub mod Returned
use virtio_pci_simple_driver.Prelude.{
  ℕ, zero, suc, ◌+◌, ◌/◌, ◌%◌, ◌^◌, bit_and, ◌==◌, if◌then◌else◌, Option, none, some,
}
use virtio_pci_simple_driver.Bus.{Bus, Io, pure, ◌>>=◌, ◌>>◌}
use virtio_pci_simple_driver.Plic
use virtio_pci_simple_driver.Plic.{uart0_irq, pcie_irq_pinb}
use virtio_pci_simple_driver.Uart
use virtio_pci_simple_driver.VirtioPci.{Hw}
use virtio_pci_simple_driver.Blk.{Blk, Heap, Run, ok, fault, out_of_fuel, blk_intr}

-- include/riscv.h
abbrev pub irq_s_ext : ℕ
irq_s_ext = 9

-- The return address with what the handler leaves.
unfoldable pub return_to : (sepc : ℕ) → Run (Blk × Heap) → Run (ℕ × (Blk × Heap))
return_to sepc (ok s) = ok (sepc, s)
return_to sepc fault = fault
return_to sepc out_of_fuel = out_of_fuel

module _ {D : Type 0} (bus : Bus D) (hw : Hw) (uart_base fuel : ℕ) where
  -- `UartIsr` as a handler that leaves the disk alone.
  unfoldable pub uart_isr : Blk → Heap → Io D (Run (Blk × Heap))
  uart_isr blk heap = do
    done ← Uart.isr bus fuel uart_base
    pure (elim done [ none ↦ out_of_fuel | some _ ↦ ok (blk, heap) ])

  -- The choice in `handle_external_trap`.
  unfoldable pub dispatch : (irq : ℕ) → Blk → Heap → Io D (Run (Blk × Heap))
  dispatch irq blk heap =
      if irq == uart0_irq
      then uart_isr blk heap
      else if irq == pcie_irq_pinb
      then blk_intr bus hw fuel blk heap
      else pure (ok (blk, heap))

  -- The end of `handle_external_trap`, if the handler has come back.
  unfoldable pub acknowledge : (irq : ℕ) → Run (Blk × Heap) → Io D (Run (Blk × Heap))
  acknowledge irq (ok s) = if irq == 0 then pure (ok s) else (do Plic.complete bus irq; pure (ok s))
  acknowledge irq fault = pure fault
  acknowledge irq out_of_fuel = pure out_of_fuel

  -- `handle_external_trap`
  unfoldable pub handle_external_trap : Blk → Heap → Io D (Run (Blk × Heap))
  handle_external_trap blk heap = do
    irq ← Plic.claim bus
    out ← dispatch irq blk heap
    acknowledge irq out

  -- `handle_trap`. An exception ends in `while(1)`, which is `out_of_fuel` for every fuel.
  unfoldable pub handle_trap : (scause sepc : ℕ) → Blk → Heap → Io D (Run (ℕ × (Blk × Heap)))
  handle_trap scause sepc blk heap =
      let external = (do out ← handle_external_trap blk heap; pure (return_to sepc out)) in
      if scause / 2 ^ 63 % 2 == 0
      then pure out_of_fuel
      else if bit_and scause 0xFF == irq_s_ext
      then external
      else pure (ok (sepc, (blk, heap)))
