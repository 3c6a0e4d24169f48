-- ===== src/Blk/System.antt =====
-- The disk driver with its device: `virtio_pci_blk_rw`, the device behind the used ring,
-- `virtio_pci_blk_intr` at any time, and the return of `virtio_pci_blk_rw`, as steps in any order. The handler
-- reads nothing that `virtio_pci_blk_rw` writes before `virtio_vring_add_avail`, so the submission is one step.
pub mod Stage
pub mod Invariant
pub mod Progress
use virtio_pci_simple_driver.Prelude.{
  ℕ, suc, ◌+◌, ◌%◌, ◌^◌, ◌≡◌, ◌≢◌, Option, some, List, u16, set, get_elem?, length,
}
use virtio_pci_simple_driver.Ring.{Used, UsedElem}
use virtio_pci_simple_driver.Blk.{Blk, BlkBuf, Heap, Run, ok, index, intr, release, submit, update}
use virtio_pci_simple_driver.Blk.Chain.{IsSized}

-- `waiting ptr head`: `virtio_pci_blk_rw` on the buffer at `ptr` is in `while (*pflag == 1)`, its chain
-- begins at descriptor `head`.
pub data Phase : Type 0 where
  idle : Phase
  waiting : (ptr head : ℕ) → Phase

-- `served` is the device's own index into the available ring.
pub record System : Type 0 where
  pub blk : Blk
  pub heap : Heap
  pub served : ℕ
  pub phase : Phase

-- The device puts a chain into the used ring and writes its status byte.
abbrev pub complete : Blk → (head len st : ℕ) → Blk
complete blk head len st = record blk {
  status = set blk.status head st;
  used = record blk.used {
    ring = set blk.used.ring (blk.used.idx % 128) (record { id = head; len = len });
    idx = u16 (blk.used.idx + 1);
  };
}

-- `serve` is the device: it takes the next head of the available ring, with any length and status.
pub data Step (base : ℕ) : System → System → Type 0 where
  begin :
      {blk : Blk} {heap : Heap} {served ptr : ℕ} {b : BlkBuf} {out : Blk × BlkBuf}
      → heap ptr ≡ some b
      → submit base ptr blk b ≡ some out
      → Step base
          (record { blk = blk; heap = heap; served = served; phase = idle })
          (record {
            blk = out.0;
            heap = update heap ptr out.1;
            served = served;
            phase = waiting ptr (index blk 0);
          })
  serve :
      {blk : Blk} {heap : Heap} {served head : ℕ} {phase : Phase} (len st : ℕ)
      → served ≢ blk.avail.idx
      → get_elem? blk.avail.ring (served % 128) ≡ some head
      → Step base
          (record { blk = blk; heap = heap; served = served; phase = phase })
          (record {
            blk = complete blk head len st;
            heap = heap;
            served = u16 (served + 1);
            phase = phase;
          })
  interrupt :
      {blk : Blk} {heap : Heap} {served : ℕ} {phase : Phase} {out : Blk × Heap} (n : ℕ)
      → intr (suc (suc n)) blk heap ≡ ok out
      → Step base
          (record { blk = blk; heap = heap; served = served; phase = phase })
          (record { blk = out.0; heap = out.1; served = served; phase = phase })
  resume :
      {blk : Blk} {heap : Heap} {served ptr head : ℕ} {b : BlkBuf}
      → heap ptr ≡ some b
      → b.flag ≢ 1
      → Step base
          (record { blk = blk; heap = heap; served = served; phase = waiting ptr head })
          (record { blk = release head blk; heap = heap; served = served; phase = idle })

-- After `virtio_pci_blk_init`: nothing is published and nothing is in the used ring that is not taken.
pub record IsStart (s : System) : Type 0 where
  pub sized : IsSized s.blk
  pub at_rest : s.phase ≡ idle
  pub taken : s.blk.avail.idx ≡ s.served
  pub seen : s.blk.used_idx ≡ s.blk.used.idx

pub data Reach (base : ℕ) : System → Type 0 where
  start : {s : System} → IsStart s → Reach base s
  later : {s t : System} → Reach base s → Step base s t → Reach base t
