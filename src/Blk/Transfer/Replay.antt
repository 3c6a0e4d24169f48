-- ===== src/Blk/Transfer/Replay.antt =====
-- What callers of `virtio_pci_blk_rw` find on the disk and in their buffers once it has returned.
use virtio_pci_simple_driver.Prelude.{
  ℕ, ◌+◌, ◌^◌, ◌<◌, ◌≡◌, ◌≢◌, ==_ne, refl, ◌∙◌, ap, subst, List, [], ◌∷◌,
}
use virtio_pci_simple_driver.Prelude.Memory.{copy, copy_within}
use virtio_pci_simple_driver.Blk.{BlkBuf}
use virtio_pci_simple_driver.Blk.System.{idle, IsStart}
use virtio_pci_simple_driver.Blk.Transfer.{
  Executes, IsSoundDisk, Store, transfer, Event, called, returned, Seen, Machine, Moves, Job, ready,
  pending, finished, Atomics, still, then_atomic, Atomic, call, effect, answer, Shows,
}
use virtio_pci_simple_driver.Blk.Transfer.Refines.{Moves-Atomics}

-- The calls, the latest first, carried out one after the other.
unfoldable pub replay : List Event → Store → Store
replay [] s = s
replay (called b ∷ es) s = transfer b (replay es s)
replay (returned ∷ es) s = replay es s

-- What the store is while a job is under way.
abbrev Matches : Store → Seen → Job → Type 0
Matches s v ready = v.store ≡ replay v.events s
Matches s v (pending b) = transfer b v.store ≡ replay v.events s
Matches s v finished = v.store ≡ replay v.events s

Atomic-Matches :
    {v w : Seen} {j k : Job} (s : Store) → Atomic (v, j) (w, k) → Matches s v j → Matches s w k
unfolding replay
Atomic-Matches s (call b) h = ap (transfer b) h
Atomic-Matches s effect h = h
Atomic-Matches s answer h = h

Atomics-Matches :
    {a b : Seen × Job} (s : Store) → Atomics a b → Matches s a.0 a.1 → Matches s b.0 b.1
Atomics-Matches s still h = h
Atomics-Matches s (then_atomic p x) h = Atomic-Matches s x (Atomics-Matches s p h)

Shows-idle : (job : Job) → Shows idle job → job ≡ ready
Shows-idle ready h = refl
Shows-idle (pending b) h = elim h [ ]
Shows-idle finished h = elim h [ ]

-- With a disk without I/O errors and callers that ask for whole sectors on it, with a
-- 32-bit length and a 64-bit buffer address: wherever a run from the start, before
-- which no call was made, finds the driver idle, the disk and the buffers are those that
-- carrying out the calls so far gives, each as a whole, in the order in which they were made
-- (where the 4 KiB from `gs_virtio_blk` on lie below 2^64).
pub idle-replay :
    {exec : Executes} {base : ℕ} {m n : Machine}
    → IsSoundDisk exec
    → base + 4096 < 2 ^ 64
    → IsStart m.sys
    → m.seen.events ≡ []
    → Moves exec base m n
    → n.sys.phase ≡ idle
    → n.seen.store ≡ replay n.seen.events m.seen.store
unfolding replay
idle-replay {m} {n} std room st none_yet ms at_rest =
    let (job, shows, run) = Moves-Atomics std room st ms in
    let at_ready : job ≡ ready = Shows-idle job (subst (λ p. Shows p job) at_rest shows) in
    let begun : m.seen.store ≡ replay m.seen.events m.seen.store = rw none_yet refl in
    subst (Matches m.seen.store n.seen) at_ready (Atomics-Matches m.seen.store run begun)

-- What has been written is read back.
pub write-read :
    (bw br : BlkBuf) (i : ℕ) (s : Store)
    → bw.is_write ≢ 0
    → br.is_write ≡ 0
    → br.addr ≡ bw.addr
    → br.data_len ≡ bw.data_len
    → i < bw.data_len
    → (transfer br (transfer bw s)).mem (br.data_addr + i) ≡ s.mem (bw.data_addr + i)
unfolding transfer
write-read bw br i s wr rd at_addr same_len h =
    rw (==_ne bw.is_write 0 wr, rd, at_addr, same_len)
      (copy_within bw.data_len (copy bw.data_len s.mem bw.data_addr s.disk bw.addr) bw.addr s.mem
          br.data_addr i h
        ∙ copy_within bw.data_len s.mem bw.data_addr s.disk bw.addr i h)
