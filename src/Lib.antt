-- ===== src/Lib.antt =====
-- The virtio-pci driver demo for RISC-V: block and entropy devices on QEMU's virt board.
--
-- The program. `main` (src/main.c) starts the board (src/platform/riscv-virt.c: console, interrupts,
-- PLIC), then each driver finds its device by a scan of the PCIe configuration space that also assigns
-- the BARs (src/driver/pcie/pci.c), walks the device's capability list to find its register
-- structures, negotiates and sets up queue 0 (src/driver/virtio/virtio-pci.c, virtio-pci-blk.c,
-- virtio-pci-rng.c), and passes requests through a split virtqueue (virtio-ring.c). The entropy driver
-- polls the used ring; the disk driver waits for a flag that its interrupt handler clears, which is
-- called from the trap handler (src/cpu/trap-handler.c) after a claim at the PLIC.
--
-- The files, each with the code it models:
--   Bus         volatile loads and stores and fences, as a log of accesses. What answers a load and what a
--               store does is a parameter, since the devices are not code of the repository. What the
--               code relies on is a record of laws beside the theorem that needs it: Pci.Bars for BARs,
--               Uart.Echo and Uart.Wait for the console, Imsic.Enable for an interrupt file,
--               Plic.Controller for the PLIC.
--   Ring        virtio-ring.h and virtio-ring.c: `vring_init`, `vring_size`, `fill_desc`, `add_avail`.
--   Pci         src/driver/pcie/pci.c: configuration accesses, the probe with its BARs, the allocators.
--   VirtioPci   virtio-pci.h and virtio-pci.c: the common configuration structure and its registers.
--   Caps        `virtio_pci_read_caps` of virtio-pci.c.
--   Startup     the steps 1 to 8 that virtio-pci-blk.c and virtio-pci-rng.c have in common; Startup.Typed
--               reads the comments on the fields of virtio-pci.h as their types.
--   Blk         virtio-blk.h and virtio-pci-blk.c. Blk.System puts the driver and its device together
--               as a step relation on the driver's state, the caller's buffers and the device's index;
--               Blk.Transfer adds the bytes on the disk and in memory, and the abstract view: one
--               transfer for each call. What the device makes of a chain is a parameter, with what the
--               driver relies on as IsSoundDisk: a disk without I/O
--               errors carries out requests of whole sectors within its size.
--   Rng         virtio-rng.h and virtio-pci-rng.c. Rng.System puts the driver and the entropy device
--               together as a step relation, with memory and a count of the bytes drawn; how many bytes the
--               device gives, up to the length asked for, is its choice. Blk.Ready and Rng.Ready begin where the
--               initialisation returns 0.
--   Plic        src/platform/plic.c.       Aplic    src/platform/aplic.c.
--   Imsic       src/platform/imsic.c.      Uart     src/driver/ns16550.c.
--   Trap        src/cpu/trap-handler.c. Trap.Sources puts the PLIC, the console and the disk driver
--               together, on the board as Platform.Boot has it started.
--   Platform    src/platform/riscv-virt.c.
--   Board       the program after `virtio_pci_blk_init`: calls of `virtio_pci_blk_rw`, the disk, whole traps
--               and changes of the devices, in any order, each with the accesses that the code makes.
--   Demo        src/main.c: the tests and `main`. What they call is a record of operations on a state, with
--               laws (Demo.Disk) that the transfers of Blk.Transfer fill.
--   Prelude     shared names, lists, bits and memory.   Tests    the theorems at concrete inputs.
-- A function keeps its name without the prefix of its file (`virtio_pci_`, `virtio_vring_`, `pci_`).
--
-- Integers. Values are natural numbers; each cast and each store to a field of 8, 16, 32 or 64 bits is
-- written as a remainder. Addresses are numbers, 0 for NULL. Static variables are arguments and
-- results. What `printf` prints is left out, but not the device reads made for it.
--
-- Loops. The scans of the bus, of the devices and of the BARs run over their number of rounds. The
-- capability walk, the wait for the transmitter, the console's and the disk's interrupt handlers have
-- fuel, and `none` or `out_of_fuel` where it runs out: the walk needs one more than the list is long,
-- the disk's handler two tests of its loop, the console's one more than the characters that wait. The
-- polling loop of the entropy driver runs over the list of what its reads of the used ring find. The
-- loop that waits for the flag is the phase `waiting` of Blk.System, and the steps of the device and of
-- the interrupt handler may come at any time in it. Endless loops by intention (`handle_trap` on an
-- exception, the end of `shutdown`) are not run.
--
-- Not modelled: virtio-mmio.c, virtio-blk.c and virtio-rng.c, which are commented out as a whole;
-- src/library/printf, a copy of another project's library; src/cpu/start.S; the commented-out MSI-X
-- code.
pub mod Prelude
pub mod Bus
pub mod Ring
pub mod Pci
pub mod VirtioPci
pub mod Caps
pub mod Startup
pub mod Plic
pub mod Rng
pub mod Blk
pub mod Uart
pub mod Aplic
pub mod Trap
pub mod Imsic
pub mod Platform
pub mod Board
pub mod Demo
pub mod Tests
