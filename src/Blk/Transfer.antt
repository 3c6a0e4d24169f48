-- ===== src/Blk/Transfer.antt =====
-- The disk driver with a device that carries requests out, as the virtio standard has it: what is on the disk and
-- in the callers' buffers, beside the state of Blk.System. The buffers lie outside the driver's own arrays. And
-- what `virtio_pci_blk_rw` is for: one transfer between the two.
pub mod Execute
pub mod Refines
pub mod Replay
use virtio_pci_simple_driver.Prelude.{
  not, ℕ, ◌+◌, ◌-◌, ◌*◌, ◌/◌, ◌%◌, ◌^◌, ◌<◌, ◌≤◌, ◌≡◌, ◌≢◌, Bool, true, false, ◌&&◌, leb, ltb, ◌==◌,
  if◌then◌else◌, Option, none, some, List, [], ◌∷◌, u16, get_elem?,
}
use virtio_pci_simple_driver.Prelude.Memory.{Bytes, copy}
use virtio_pci_simple_driver.Ring.{Desc}
use virtio_pci_simple_driver.Blk.{
  Blk, BlkBuf, Heap, Request, index, intr, Run, ok, submit, release, update,
}
use virtio_pci_simple_driver.Blk.Chain.{chain}
use virtio_pci_simple_driver.Blk.System.{
  System, Phase, idle, waiting, Step, begin, serve, interrupt, resume, complete, IsStart,
}

pub record Store : Type 0 where
  pub disk : Bytes
  pub mem : Bytes

-- What `virtio_pci_blk_rw` is for.
unfoldable pub transfer : BlkBuf → Store → Store
transfer b s =
    if b.is_write == 0
    then record s { mem = copy b.data_len s.disk b.addr s.mem b.data_addr }
    else record s { disk = copy b.data_len s.mem b.data_addr s.disk b.addr }

-- The request header that the device finds at an address, with `gs_virtio_blk` at `base`.
unfoldable pub header_at : (base : ℕ) → List Request → (addr : ℕ) → Option Request
header_at base ops addr =
    if ltb addr (base + 1152) then none else get_elem? ops ((addr - (base + 1152)) / 16)

-- A descriptor that the device may write to.
abbrev pub is_writable : Desc → Bool
is_writable d = d.flags / 2 % 2 == 1

-- The data part of a request: the device writes to writable memory only, and reads the other.
unfoldable pub move_data : Request → Desc → Store → Option Store
move_data r d s =
    if r.type == 0
    then (if is_writable d
        then some (record s { mem = copy d.len s.disk (r.sector * 512) s.mem d.addr })
        else none)
    else if r.type == 1
    then (if is_writable d
        then none
        else some (record s { disk = copy d.len s.mem d.addr s.disk (r.sector * 512) }))
    else none

-- A disk: how many sectors it has, and what it makes of a chain of descriptors, `none` where it does not carry it
-- out, as with a request past its end. The disk is no code of the repository: it is a parameter.
pub record Executes : Type 0 where
  pub sectors : ℕ
  pub carry_out : (base : ℕ) → List Request → List Desc → Store → Option Store

-- What the driver relies on, of a disk without I/O errors: a request of a readable header of 16 bytes, data of whole
-- sectors that all lie on the disk, and a writable byte for the status is carried out. Nothing is said of other requests.
pub record IsSoundDisk (exec : Executes) : Type 0 where
  pub carries_out :
      (base : ℕ) (ops : List Request) (h d st : Desc) (r : Request) (s after : Store)
      → h.len ≡ 16
      → is_writable h ≡ false
      → st.len ≡ 1
      → is_writable st ≡ true
      → header_at base ops h.addr ≡ some r
      → d.len % 512 ≡ 0
      → r.sector * 512 + d.len ≤ exec.sectors * 512
      → move_data r d s ≡ some after
      → exec.carry_out base ops (h ∷ d ∷ st ∷ []) s ≡ some after

-- What a caller of `virtio_pci_blk_rw` has to keep to: whole sectors, on the disk.
pub record IsRequest (exec : Executes) (b : BlkBuf) : Type 0 where
  pub at_sector : b.addr % 512 ≡ 0
  pub whole_len : b.data_len % 512 ≡ 0
  pub on_disk : b.addr + b.data_len ≤ exec.sectors * 512
  pub len_fits : b.data_len < 2 ^ 32
  pub addr_fits : b.data_addr < 2 ^ 64

-- What callers do, and what can be seen of the driver and its device: the store, and the calls and
-- returns, the latest first.
pub data Event : Type 0 where
  called : BlkBuf → Event
  returned : Event

pub record Seen : Type 0 where
  pub store : Store
  pub events : List Event

abbrev pub note : Event → Seen → Seen
note e v = record v { events = e ∷ v.events }

-- A step of the driver, by a caller that keeps to the rule. What the device does is not among them.
abbrev pub IsDriver : (exec : Executes) {base : ℕ} {s t : System} → Step base s t → Type 0
IsDriver exec (begin {b} p q) = IsRequest exec b
IsDriver exec (serve len st ne r) = ⊥
IsDriver exec (interrupt n e) = Unit
IsDriver exec (resume p ne) = Unit

abbrev pub noted : {base : ℕ} {s t : System} → Step base s t → Seen → Seen
noted (begin {b} p q) v = note (called b) v
noted (serve len st ne r) v = v
noted (interrupt n e) v = v
noted (resume p ne) v = note returned v

pub record Machine : Type 0 where
  pub sys : System
  pub seen : Seen

pub data Move (exec : Executes) (base : ℕ) : Machine → Machine → Type 0 where
  driver :
      {s t : System} {v : Seen} (st : Step base s t)
      → IsDriver exec st
      → Move exec base (record { sys = s; seen = v }) (record { sys = t; seen = noted st v })
  device :
      {blk : Blk} {heap : Heap} {served head : ℕ} {phase : Phase} {v : Seen} {after : Store}
      {ds : List Desc} (len : ℕ)
      → served ≢ blk.avail.idx
      → get_elem? blk.avail.ring (served % 128) ≡ some head
      → chain 128 blk.desc head ≡ some ds
      → exec.carry_out base blk.ops ds v.store ≡ some after
      → Move exec base
          (record {
            sys = record { blk = blk; heap = heap; served = served; phase = phase };
            seen = v;
          })
          (record {
            sys = record {
              blk = complete blk head len 0;
              heap = heap;
              served = u16 (served + 1);
              phase = phase;
            };
            seen = record v { store = after };
          })

pub data Moves (exec : Executes) (base : ℕ) : Machine → Machine → Type 0 where
  stay : {m : Machine} → Moves exec base m m
  then_move : {l m n : Machine} → Moves exec base l m → Move exec base m n → Moves exec base l n

-- The same as three steps: a call, its effect at one moment, and its return.
pub data Job : Type 0 where
  ready : Job
  pending : BlkBuf → Job
  finished : Job

pub data Atomic : Seen × Job → Seen × Job → Type 0 where
  call : {v : Seen} (b : BlkBuf) → Atomic (v, ready) (note (called b) v, pending b)
  effect :
      {v : Seen} {b : BlkBuf}
      → Atomic (v, pending b) (record v { store = transfer b v.store }, finished)
  answer : {v : Seen} → Atomic (v, finished) (note returned v, ready)

pub data Atomics : Seen × Job → Seen × Job → Type 0 where
  still : {a : Seen × Job} → Atomics a a
  then_atomic : {a b c : Seen × Job} → Atomics a b → Atomic b c → Atomics a c

-- Which jobs a caller's phase fits.
abbrev pub Shows : Phase → Job → Type 0
Shows idle ready = Unit
Shows (waiting ptr head) (pending b) = Unit
Shows (waiting ptr head) finished = Unit
Shows _ _ = ⊥
