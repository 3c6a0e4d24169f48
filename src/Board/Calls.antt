-- ===== src/Board/Calls.antt =====
-- A call on the board, from `virtio_pci_blk_rw` to its return through the interrupt.
use virtio_pci_simple_driver.Prelude.{ℕ, ◌≡◌}
use virtio_pci_simple_driver.Bus.{Bus, World}
use virtio_pci_simple_driver.VirtioPci.{Hw}
use virtio_pci_simple_driver.Blk.{Blk, BlkBuf}
use virtio_pci_simple_driver.Blk.System.{idle}
use virtio_pci_simple_driver.Blk.System.Stage.{Stage}
use virtio_pci_simple_driver.Blk.Transfer.{Executes}
use virtio_pci_simple_driver.Board.{Machine, Steps}
use virtio_pci_simple_driver.Board.Wait.{served_by, ArePrompt}
use virtio_pci_simple_driver.Board.Refines

-- What a whole call leaves, by steps that it causes.
abbrev pub Returned :
    (D : Type 0) (bus : Bus D) (hw : Hw) (uart_base base : ℕ) (exec : Executes)
    (raise : World D → World D) (b : BlkBuf) (n : Machine D)
    → Type 0
Returned D bus hw uart_base base exec raise b n =
    (t : Machine D) × (run : Steps bus hw uart_base exec base n t) × ArePrompt bus hw raise run
    × (t.sys.phase ≡ idle)
    × (t.seen ≡ served_by b n.seen)
