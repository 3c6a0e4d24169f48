-- ===== src/Board.antt =====
-- The program on its board after `virtio_pci_blk_init`: the calls of `virtio_pci_blk_rw`, the disk, the traps and
-- whatever else the devices do, as steps in any order, each with the accesses that the code makes.
pub mod Refines
pub mod Traps
pub mod Wait
pub mod Calls
use virtio_pci_simple_driver.Prelude.{
  ℕ, suc, ◌+◌, ◌%◌, ◌≡◌, ◌≢◌, Option, some, none, List, u16, get_elem?,
}
use virtio_pci_simple_driver.Bus.{Bus, World}
use virtio_pci_simple_driver.Ring.{Desc}
use virtio_pci_simple_driver.VirtioPci.{Hw}
use virtio_pci_simple_driver.Blk.{Blk, BlkBuf, Heap, Run, ok, index, release, update, begin_rw}
use virtio_pci_simple_driver.Blk.Chain.{chain}
use virtio_pci_simple_driver.Blk.System.{System, Phase, idle, waiting, complete}
use virtio_pci_simple_driver.Blk.Transfer.{Executes, IsRequest, Seen, Store, note, called, returned}
use virtio_pci_simple_driver.Trap.{handle_trap}

pub record Machine (D : Type 0) : Type 0 where
  pub sys : System
  pub seen : Seen
  pub world : World D

-- `device` is the disk carrying out a request, with the status 0 of a disk without I/O errors; `change` is anything
-- else that the devices do: a character that arrives, an interrupt that begins to wait. In both the devices'
-- state becomes any other, and the disk may look at the ring at any time, notified or not: a run of these steps
-- may be any that the board can make, and more. Board.Wait singles out the runs in which the disk waits for its
-- notification and nothing happens by itself.
pub data Step {D : Type 0} (bus : Bus D) (hw : Hw) (uart_base : ℕ) (exec : Executes) (base : ℕ)
    : Machine D → Machine D → Type 0 where
  -- `virtio_pci_blk_rw` up to its wait.
  call :
      {blk : Blk} {heap : Heap} {served ptr : ℕ} {b : BlkBuf} {v : Seen} {σ τ : World D}
      {out : Blk × BlkBuf}
      → heap ptr ≡ some b
      → IsRequest exec b
      → begin_rw bus hw base ptr blk b σ ≡ (some out, τ)
      → Step bus hw uart_base exec base
          (record {
            sys = record { blk = blk; heap = heap; served = served; phase = idle };
            seen = v;
            world = σ;
          })
          (record {
            sys = record {
              blk = out.0;
              heap = update heap ptr out.1;
              served = served;
              phase = waiting ptr (index blk 0);
            };
            seen = note (called b) v;
            world = τ;
          })
  -- The same where the length is refused: it returns at once.
  refused :
      {m : Machine D} {b : BlkBuf} {τ : World D} (ptr : ℕ)
      → m.sys.phase ≡ idle
      → m.sys.heap ptr ≡ some b
      → begin_rw bus hw base ptr m.sys.blk b m.world ≡ (none, τ)
      → Step bus hw uart_base exec base m (record m { world = τ })
  device :
      {blk : Blk} {heap : Heap} {served head : ℕ} {phase : Phase} {v : Seen} {σ τ : World D}
      {after : Store} {ds : List Desc} (len : ℕ)
      → served ≢ blk.avail.idx
      → get_elem? blk.avail.ring (served % 128) ≡ some head
      → chain 128 blk.desc head ≡ some ds
      → exec.carry_out base blk.ops ds v.store ≡ some after
      → Step bus hw uart_base exec base
          (record {
            sys = record { blk = blk; heap = heap; served = served; phase = phase };
            seen = v;
            world = σ;
          })
          (record {
            sys = record {
              blk = complete blk head len 0;
              heap = heap;
              served = u16 (served + 1);
              phase = phase;
            };
            seen = record v { store = after };
            world = τ;
          })
  -- A trap of any cause that comes back.
  trap :
      {sys : System} {v : Seen} {σ τ : World D} {after : Blk × Heap} (n scause sepc sepc' : ℕ)
      → handle_trap bus hw uart_base (suc (suc n)) scause sepc sys.blk sys.heap σ
        ≡ (ok (sepc', after), τ)
      → Step bus hw uart_base exec base
          (record { sys = sys; seen = v; world = σ })
          (record { sys = record sys { blk = after.0; heap = after.1 }; seen = v; world = τ })
  -- The end of `virtio_pci_blk_rw`, where its loop finds the flag cleared.
  back :
      {blk : Blk} {heap : Heap} {served ptr head : ℕ} {b : BlkBuf} {v : Seen} {σ : World D}
      → heap ptr ≡ some b
      → b.flag ≢ 1
      → Step bus hw uart_base exec base
          (record {
            sys = record { blk = blk; heap = heap; served = served; phase = waiting ptr head };
            seen = v;
            world = σ;
          })
          (record {
            sys = record { blk = release head blk; heap = heap; served = served; phase = idle };
            seen = note returned v;
            world = σ;
          })
  change :
      {sys : System} {v : Seen} {σ τ : World D}
      → Step bus hw uart_base exec base
          (record { sys = sys; seen = v; world = σ })
          (record { sys = sys; seen = v; world = τ })

pub data Steps {D : Type 0} (bus : Bus D) (hw : Hw) (uart_base : ℕ) (exec : Executes) (base : ℕ)
    : Machine D → Machine D → Type 0 where
  here : {m : Machine D} → Steps bus hw uart_base exec base m m
  and_then :
      {l m n : Machine D}
      → Steps bus hw uart_base exec base l m
      → Step bus hw uart_base exec base m n
      → Steps bus hw uart_base exec base l n
