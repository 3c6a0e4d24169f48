-- ===== src/Tests/Interrupts.antt =====
-- The board started and then interrupted.
use virtio_pci_simple_driver.Prelude.{
  Bool-cases, inl, false, ◌&&◌, ℕ, zero, suc, length, ◌+◌, ◌%◌, ◌^◌, ◌<◌, ◌≡◌, inr, refl, ap, arith,
  ◌||◌, ◌==◌, [], ◌∷◌,
}
use virtio_pci_simple_driver.Prelude.Bits.{bit}
use virtio_pci_simple_driver.Bus.{World}
use virtio_pci_simple_driver.Plic
use virtio_pci_simple_driver.Uart
use virtio_pci_simple_driver.Plic.{
  enable, plic0_addr, claim_addr, enable_base, uart0_irq, pcie_irq_pinb,
}
use virtio_pci_simple_driver.Plic.Controller.{IsOutside}
use virtio_pci_simple_driver.Platform.{Hart, plt_virt_init, interrupts_init}
use virtio_pci_simple_driver.Platform.Boot.{boot-enabled}
use virtio_pci_simple_driver.Blk.{Blk, Heap, ok}
use virtio_pci_simple_driver.Trap.{handle_trap}
use virtio_pci_simple_driver.Trap.Sources.{Served}
use virtio_pci_simple_driver.Board.{Machine, Steps, trap, change, here, and_then}
use virtio_pci_simple_driver.Board.Refines.{ready}
use virtio_pci_simple_driver.Board.Traps.{IsCalm, AreSteady, trap_returns}
use virtio_pci_simple_driver.Tests.Program.{at_reset, statics, now, init-ready, empty_disk}
use virtio_pci_simple_driver.Tests.Transfer.{execute, two_callers}
use virtio_pci_simple_driver.Tests.Controller.{
  Board, is_real, is_on, board, board-IsPlic, board-IsUart, board-IsElsewhere,
}
use virtio_pci_simple_driver.Tests.Board.{as_bytes}

abbrev hart : Hart
hart = record { sie = 0; sstatus = 0 }

no_bits : (k : ℕ) → bit k 0 ≡ 0
no_bits zero = refl
no_bits (suc k) = no_bits k

off_real : (i : ℕ) → (is_real i && false) ≡ false
off_real i = elim (Bool-cases (is_real i)) [ inl h ↦ rw h refl | inr h ↦ rw h refl ]

-- The board with the console ready, and with the disk ready too.
abbrev with_console : World Board
with_console = (plt_virt_init board hart at_reset).1

abbrev started : World Board
started = (enable board pcie_irq_pinb with_console).1

the_two : (i : ℕ) → i < 1024 → is_on started.dev i ≡ ((i == uart0_irq) || (i == pcie_irq_pinb))
unfolding board-IsPlic
the_two =
    boot-enabled board-IsPlic hart at_reset with_console
      (λ i h h'. rw (no_bits (i % 32)) (off_real i)) (λ i h. refl)

boot-enabled_example : is_on started.dev 33 ≡ ((33 == uart0_irq) || (33 == pcie_irq_pinb))
unfolding board-IsPlic
boot-enabled_example =
    boot-enabled board-IsPlic hart at_reset with_console
      (λ i h h'. rw (no_bits (i % 32)) (off_real i)) (λ i h. refl) 33 (omega arith)

pressed-IsCalm : IsCalm board-IsPlic started.dev
unfolding board-IsPlic plt_virt_init interrupts_init Plic.init Plic.enable Uart.init
pressed-IsCalm = record { two = the_two; inactive = λ i. refl }

far_away : (k : ℕ) → k < 8 → IsOutside (0x1000_0000 + k)
far_away k h = inr (omega arith)

abbrev once_more : World Board → World Board
once_more τ = record { dev = record τ.dev { waiting = 33; rx = 0x63 ∷ [] }; log = τ.log }

-- The console's interrupt, then a character and the disk's interrupt while it has not been taken.
abbrev interrupted : Machine Board
interrupted = ready now two_callers.heap empty_disk started

unfoldable echo_then_disk :
    (m : Machine Board) × (ss : Steps board now.hw 0x1000_0000 execute 0x8000 interrupted m)
    × AreSteady board-IsPlic (λ d. as_bytes d.rx) ss
    × (length (as_bytes m.world.dev.rx) < 2)
unfolding board-IsPlic plt_virt_init interrupts_init Plic.init Plic.enable Uart.init
echo_then_disk =
    let (after, out, _, _) =
      trap_returns board-IsPlic 0x1000_0000 0x8000 execute now far_away (inr (omega arith))
        board-IsUart board-IsElsewhere 3 0x8000_0000 statics at_reset started two_callers.heap
        empty_disk refl (omega arith) init-ready pressed-IsCalm interrupted here tt 1 0x8000
        (omega arith) in
    let run =
      handle_trap board now.hw 0x1000_0000 3 (2 ^ 63 + 9) 0x8000 interrupted.sys.blk
        two_callers.heap started in
    (
      record {
        sys = record interrupted.sys { blk = after.0; heap = after.1 };
        seen = interrupted.seen;
        world = once_more run.1;
      },
      and_then (and_then here (trap 1 (2 ^ 63 + 9) 0x8000 0x8000 (ap (λ o. (o, run.1)) out)))
          change,
      ((tt, omega arith), λ i. (refl, refl)),
      omega arith,
    )

trap_returns_example :
    let m = echo_then_disk.0 in
    let (out, τ) =
      handle_trap board now.hw 0x1000_0000 2 (2 ^ 63 + 9) 0x9000 m.sys.blk m.sys.heap m.world in
    (after : Blk × Heap) × (out ≡ ok (0x9000, after))
    × IsCalm board-IsPlic τ.dev
    × Served board-IsPlic
        (λ d. as_bytes d.rx)
        (λ d. d.tx)
        m.world.dev
        τ.dev
        (m.sys.blk, m.sys.heap)
        after
trap_returns_example =
    trap_returns board-IsPlic 0x1000_0000 0x8000 execute now far_away (inr (omega arith))
      board-IsUart board-IsElsewhere 3 0x8000_0000 statics at_reset started two_callers.heap
      empty_disk refl (omega arith) init-ready pressed-IsCalm echo_then_disk.0 echo_then_disk.1
      echo_then_disk.2 0 0x9000 echo_then_disk.3
