-- ===== src/Tests/Transfer.antt =====
-- A caller writes two sectors and reads them back.
use virtio_pci_simple_driver.Prelude.{
  ℕ, List, Option, leb, true, ◌+◌, ◌*◌, ◌%◌, [], ◌∷◌, ◌&&◌, not, ◌≡◌, refl, arith, some, none, [],
  if◌then◌else◌, ◌==◌,
}
use virtio_pci_simple_driver.Ring.{Desc, fill_desc, add_avail}
use virtio_pci_simple_driver.Blk.{
  Request, BlkBuf, enqueue, fits, submit, intr, retire, release, index,
}
use virtio_pci_simple_driver.Blk.Chain.{chain}
use virtio_pci_simple_driver.Blk.System.{System, idle, begin, interrupt, resume, IsStart}
use virtio_pci_simple_driver.Blk.Transfer.{
  Store, transfer, Executes, IsSoundDisk, is_writable, header_at, move_data, IsRequest, Machine,
  Moves, driver, device, stay, then_move, Job, ready, Atomics, Shows,
}
use virtio_pci_simple_driver.Blk.Transfer.Execute.{execute-from_sector, request_chain}
use virtio_pci_simple_driver.Blk.Transfer.Refines.{Moves-Atomics}
use virtio_pci_simple_driver.Tests.Disk.{disk, disk-IsSized}

-- A device that carries out nothing else than what the standard asks for.
unfoldable pub carry : (base : ℕ) → List Request → List Desc → Store → Option Store
carry base ops (h ∷ d ∷ st ∷ []) s =
    if h.len == 16 && not (is_writable h) && st.len == 1 && is_writable st && d.len % 512 == 0
    then elim (header_at base ops h.addr) [
      | none ↦ none
      | some r ↦ if leb (r.sector * 512 + d.len) (256 * 512) then move_data r d s else none
    ]
    else none
carry base ops _ s = none

-- 128 KiB.
unfoldable pub execute : Executes
execute = record { sectors = 256; carry_out = carry }

pub execute-IsSoundDisk : IsSoundDisk execute
unfolding execute carry
execute-IsSoundDisk = record {
  carries_out = λ base ops h d st r s after long readable short writable found whole inside moves.
      let on : leb (r.sector * 512 + d.len) (256 * 512) ≡ true = ground arith in
      rw (long, readable, short, writable, whole, found, on) moves;
}

abbrev pub writing : BlkBuf
writing = record { addr = 1024; data_addr = 0x9000; data_len = 1024; is_write = 1; flag = 0 }

abbrev pub reading : BlkBuf
reading = record { addr = 1024; data_addr = 0xa000; data_len = 1024; is_write = 0; flag = 0 }

abbrev pub two_callers : System
two_callers = record {
  blk = disk;
  heap = λ p. if p == 0x5000 then some writing else if p == 0x6000 then some reading else none;
  served = 0;
  phase = idle;
}

two_callers-IsStart : IsStart two_callers
two_callers-IsStart = record { sized = disk-IsSized; at_rest = refl; taken = refl; seen = refl }

-- An empty disk, and a memory that holds at each address its last digit.
abbrev powered : Machine
powered = record {
  sys = two_callers;
  seen = record { store = record { disk = λ a. 0; mem = λ a. a }; events = [] };
}

pub writing-IsRequest : IsRequest execute writing
unfolding execute
writing-IsRequest = record {
  at_sector = refl;
  whole_len = refl;
  on_disk = omega arith;
  len_fits = omega arith;
  addr_fits = omega arith;
}

pub reading-IsRequest : IsRequest execute reading
unfolding execute
reading-IsRequest = record {
  at_sector = refl;
  whole_len = refl;
  on_disk = omega arith;
  len_fits = omega arith;
  addr_fits = omega arith;
}

unfoldable wrote : (m : Machine) × Moves execute 0x8000 powered m
unfolding submit fits enqueue fill_desc add_avail intr retire release chain execute carry header_at
    move_data
wrote = (
  _,
  then_move
      (then_move
        (then_move
          (then_move stay (driver (begin {ptr = 0x5000} {b = writing} refl refl) writing-IsRequest))
          (device {head = 0} 0 (omega arith) refl refl refl))
        (driver (interrupt 0 refl) tt))
      (driver (resume {b = record writing { flag = 0 }} refl (omega arith)) tt),
)

unfoldable wrote_and_read : (m : Machine) × Moves execute 0x8000 powered m
unfolding wrote submit fits enqueue fill_desc add_avail intr retire release chain execute carry
    header_at move_data
wrote_and_read = (
  _,
  then_move
      (then_move
        (then_move
          (then_move wrote.1
            (driver (begin {ptr = 0x6000} {b = reading} refl refl) reading-IsRequest))
          (device {head = 3} 0 (omega arith) refl refl refl))
        (driver (interrupt 0 refl) tt))
      (driver (resume {b = record reading { flag = 0 }} refl (omega arith)) tt),
)

execute-from_sector_example :
    (chain 128 (enqueue 0x8000 0x5000 disk writing).desc (index disk 0)
      ≡ some (request_chain 0x8000 0x5000 disk writing disk-IsSized))
    × (execute.carry_out 0x8000
          (enqueue 0x8000 0x5000 disk writing).ops
          (request_chain 0x8000 0x5000 disk writing disk-IsSized)
          powered.seen.store
        ≡ some (transfer writing powered.seen.store))
execute-from_sector_example =
    execute-from_sector 0x8000 0x5000 disk writing disk-IsSized execute execute-IsSoundDisk
      (omega arith) (omega arith) (omega arith) refl (unfold execute in omega arith)
      powered.seen.store

Moves-Atomics_example :
    (job : Job) × Shows wrote_and_read.0.sys.phase job
    × Atomics (powered.seen, ready) (wrote_and_read.0.seen, job)
Moves-Atomics_example =
    Moves-Atomics execute-IsSoundDisk (omega arith) two_callers-IsStart wrote_and_read.1
