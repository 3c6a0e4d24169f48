-- ===== src/Blk/Transfer/Refines.antt =====
-- The disk driver with its device does one atomic transfer for each request.
use virtio_pci_simple_driver.Prelude.{
  ℕ, ◌+◌, ◌%◌, ◌^◌, ◌<◌, ◌≡◌, ◌≢◌, subst, sym, ◌∙◌, arith, some, List, u16, get_elem?,
}
use virtio_pci_simple_driver.Ring.{Desc}
use virtio_pci_simple_driver.Blk.{Blk, BlkBuf, Heap, index, release}
use virtio_pci_simple_driver.Blk.Chain.{chain}
use virtio_pci_simple_driver.Blk.System.{
  Phase, idle, waiting, System, Step, begin, serve, interrupt, resume, complete, IsStart, Reach,
  start,
}
use virtio_pci_simple_driver.Blk.System.Stage.{rest, intr-Stage}
use virtio_pci_simple_driver.Blk.System.Invariant.{
  Inv, Reach-Inv, Step-Inv, submit-eq, enqueue-published, resume-Stage,
}
use virtio_pci_simple_driver.Blk.Transfer.{
  Store, Seen, noted, transfer, Executes, IsSoundDisk, IsDriver, Machine, Move, driver, device,
  Moves, stay, then_move, Job, ready, pending, finished, call, effect, answer, Atomics, still,
  then_atomic, Shows,
}
use virtio_pci_simple_driver.Blk.Transfer.Execute.{Loaded, enqueue-Loaded}

-- The job that the state of the rings stands for. It turns from pending to finished when the device
-- takes the head.
pub data View (exec : Executes) (base : ℕ) (blk : Blk) (served : ℕ) : Phase → Job → Type 0 where
  view_rest : View exec base blk served idle ready
  view_queued :
      {ptr head : ℕ} {b : BlkBuf}
      → blk.avail.idx ≡ u16 (served + 1)
      → get_elem? blk.avail.ring (served % 128) ≡ some head
      → Loaded exec base blk head b
      → View exec base blk served (waiting ptr head) (pending b)
  view_done :
      {ptr head : ℕ}
      → blk.avail.idx ≡ served
      → View exec base blk served (waiting ptr head) finished

View-Shows :
    {exec : Executes} {base served : ℕ} {blk : Blk} {phase : Phase} {job : Job}
    → View exec base blk served phase job
    → Shows phase job
View-Shows view_rest = tt
View-Shows (view_queued a r l) = tt
View-Shows (view_done a) = tt

-- The interrupt handler changes nothing that the device works from.
View-used_idx :
    {exec : Executes} {base served : ℕ} {blk : Blk} {phase : Phase} {job : Job} (used_idx : ℕ)
    → View exec base blk served phase job
    → View exec base (record blk { used_idx = used_idx }) served phase job
View-used_idx used_idx view_rest = view_rest
View-used_idx used_idx (view_queued a r l) =
    view_queued a r (record { descs = l.descs; walked = l.walked; does = l.does })
View-used_idx used_idx (view_done a) = view_done a

abbrev pub Linked : (exec : Executes) (base : ℕ) → System → Job → Type 0
Linked exec base s job = Inv s × View exec base s.blk s.served s.phase job

-- What the driver does is a call, an answer, or nothing to the store.
driver-Linked :
    {exec : Executes} {base : ℕ} {s t : System} {v : Seen} {job : Job}
    → IsSoundDisk exec
    → base + 4096 < 2 ^ 64
    → (st : Step base s t) → IsDriver exec st
    → Linked exec base s job
    → (job' : Job) × Linked exec base t job' × Atomics (v, job) (noted st v, job')
unfolding release
driver-Linked {exec} {base} std room (begin {blk} {heap} {served} {ptr} {b} {out} p q) request
      ((sized, rest a u), view_rest) =
    let (moved, published) = enqueue-published base ptr blk b sized served a in
    (
      pending b,
      (
        Step-Inv {base = base} (begin p q) (sized, rest a u),
        subst (λ o. View exec base o.0 served (waiting ptr (index blk 0)) (pending b))
            (submit-eq base ptr blk b out q)
            (view_queued moved published
              (enqueue-Loaded exec std base ptr blk b sized request room)),
      ),
      then_atomic still (call b),
    )
driver-Linked std room (serve len st ne r) ours linked = elim ours [ ]
driver-Linked {exec} {base} {job} std room (interrupt {blk} {heap} {served} {phase} {out} n q) ours
      ((sized, stage), view) =
    let (used_idx, heap', e, _, _) = intr-Stage sized stage n in
    let same : (record blk { used_idx = used_idx }, heap') ≡ out = cc in
    (
      job,
      (
        Step-Inv {base = base} (interrupt n q) (sized, stage),
        subst (λ o. View exec base o.0 served phase job) same (View-used_idx used_idx view),
      ),
      still,
    )
driver-Linked std room (resume p ne) ours ((sized, stage), view_queued a r l) =
    absurd (omega (arith, a, (resume-Stage p ne stage).0))
driver-Linked {exec} {base} std room (resume p ne) ours ((sized, stage), view_done a) = (
  ready,
  (Step-Inv {base = base} (resume p ne) (sized, stage), view_rest),
  then_atomic still answer,
)

-- What the device does is the effect of the pending job.
device-Linked :
    {exec : Executes} {base served head : ℕ} {blk : Blk} {heap : Heap} {phase : Phase} {v : Seen}
    {after : Store} {ds : List Desc} {job : Job} (len : ℕ)
    → served ≢ blk.avail.idx
    → get_elem? blk.avail.ring (served % 128) ≡ some head
    → chain 128 blk.desc head ≡ some ds
    → exec.carry_out base blk.ops ds v.store ≡ some after
    → Linked exec base (record { blk = blk; heap = heap; served = served; phase = phase }) job
    → (job' : Job) × Linked exec base
        (record {
          blk = complete blk head len 0;
          heap = heap;
          served = u16 (served + 1);
          phase = phase;
        })
        job'
      × Atomics (v, job) (record v { store = after }, job')
device-Linked len ne r walk run ((sized, rest a u), view_rest) = absurd (ne (sym a))
device-Linked len ne r walk run (inv, view_done a) = absurd (ne (sym a))
device-Linked {exec} {base} {served} {head} {blk} {heap} {phase} {v} {after} {ds} len ne r walk run
      (inv, view_queued {head = k} {b} a r' l) =
    (
      finished,
      (Step-Inv {base = base} (serve len 0 ne r) inv, view_done a),
      subst (λ s. Atomics (v, pending b) (record v { store = s }, finished)) result
          (then_atomic still effect),
    )
  where
    same : head ≡ k
    same = cc

    same_chain : l.descs ≡ ds
    same_chain =
        let walk' : chain 128 blk.desc k ≡ some ds = rw (sym same) walk in
        let both = sym l.walked ∙ walk' in cc

    result : transfer b v.store ≡ after
    result =
        let run' : exec.carry_out base blk.ops l.descs v.store ≡ some after = rw same_chain run in
        let both = sym (l.does v.store) ∙ run' in cc

Move-Linked :
    {exec : Executes} {base : ℕ} {m n : Machine} {job : Job}
    → IsSoundDisk exec
    → base + 4096 < 2 ^ 64
    → Move exec base m n
    → Linked exec base m.sys job
    → (job' : Job) × Linked exec base n.sys job' × Atomics (m.seen, job) (n.seen, job')
Move-Linked std room (driver st ours) linked = driver-Linked std room st ours linked
Move-Linked std room (device len ne r walk run) linked = device-Linked len ne r walk run linked

Atomics-trans : {a b c : Seen × Job} → Atomics a b → Atomics b c → Atomics a c
Atomics-trans p still = p
Atomics-trans p (then_atomic q x) = then_atomic (Atomics-trans p q) x

pub Moves-Linked :
    {exec : Executes} {base : ℕ} {m n : Machine}
    → IsSoundDisk exec
    → base + 4096 < 2 ^ 64
    → IsStart m.sys
    → Moves exec base m n
    → (job : Job) × Linked exec base n.sys job × Atomics (m.seen, ready) (n.seen, job)
Moves-Linked {exec} {base} {m} std room st stay =
    let begun : Reach base m.sys = start st in
    let inv = Reach-Inv begun in
    (
      ready,
      (inv, subst (λ p. View exec base m.sys.blk m.sys.served p ready) (sym st.at_rest) view_rest),
      still,
    )
Moves-Linked std room st (then_move ms mv) =
    let (job, linked, before) = Moves-Linked std room st ms in
    let (job', linked', now) = Move-Linked std room mv linked in
    (job', linked', Atomics-trans before now)

-- Refinement: whatever the driver, a disk without I/O errors and its interrupts do
-- from the start on, in any order, for callers that ask for whole sectors on the disk, with a
-- 32-bit length and a 64-bit buffer address, the disk and the buffers, with the calls and
-- returns so far, are such as calls give that are carried out at one moment each, between call
-- and return, with the call's own buffer; and the driver is idle exactly where no call is
-- under way (where the 4 KiB from `gs_virtio_blk` on lie below 2^64).
pub Moves-Atomics :
    {exec : Executes} {base : ℕ} {m n : Machine}
    → IsSoundDisk exec
    → base + 4096 < 2 ^ 64
    → IsStart m.sys
    → Moves exec base m n
    → (job : Job) × Shows n.sys.phase job × Atomics (m.seen, ready) (n.seen, job)
Moves-Atomics std room st ms =
    let (job, linked, run) = Moves-Linked std room st ms in (job, View-Shows linked.1, run)
