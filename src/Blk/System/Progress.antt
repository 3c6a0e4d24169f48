-- ===== src/Blk/System/Progress.antt =====
-- What the disk driver's invariant gives: the handler is safe, and a caller is not woken too early.
use virtio_pci_simple_driver.Prelude.{ℕ, suc, ◌≡◌, ◌≢◌, sym, subst, arith, some}
use virtio_pci_simple_driver.Blk.{Blk, BlkBuf, Heap, ok, intr}
use virtio_pci_simple_driver.Blk.System.{waiting, System, Reach}
use virtio_pci_simple_driver.Blk.System.Stage.{Stage, queued, completed, handled, intr-Stage}
use virtio_pci_simple_driver.Blk.System.Invariant.{Reach-Inv, resume-Stage}

-- In every reachable state, also on an interrupt that nobody waits for, `virtio_pci_blk_intr` ends within
-- two tests of its loop, with no access outside an array and no NULL `struct blk_buf`, and leaves nothing
-- untaken in the used ring.
pub intr_returns :
    {base : ℕ} {s : System}
    → Reach base s
    → (n : ℕ)
    → (out : Blk × Heap) × (intr (suc (suc n)) s.blk s.heap ≡ ok out)
      × (out.0.used_idx ≡ out.0.used.idx)
intr_returns r n =
    let (sized, stage) = Reach-Inv r in
    let (used_idx, heap', e, seen, _) = intr-Stage sized stage n in ((_, heap'), e, seen)

-- A caller of `virtio_pci_blk_rw` goes on only after the device has put its request into the used ring, and the
-- handler has taken it.
pub resume_after_device :
    {base ptr head : ℕ} {s : System} {b : BlkBuf}
    → Reach base s
    → s.phase ≡ waiting ptr head
    → s.heap ptr ≡ some b
    → b.flag ≢ 1
    → (s.served ≡ s.blk.avail.idx) × (s.blk.used_idx ≡ s.blk.used.idx)
resume_after_device {s} r e p ne =
    let (_, stage) = Reach-Inv r in
    let (a, u) = resume-Stage p ne (subst (λ p. Stage s.blk s.heap s.served p) e stage) in
    (sym a, u)

-- Once the device and the handler have done their part, the flag is down.
pub flag_down :
    {blk : Blk} {heap : Heap} {served ptr head : ℕ}
    → blk.avail.idx ≡ served
    → blk.used_idx ≡ blk.used.idx
    → Stage blk heap served (waiting ptr head)
    → (b : BlkBuf) × (heap ptr ≡ some b) × (b.flag ≢ 1)
flag_down a u (queued lt a' r i p f u') = absurd (omega arith)
flag_down a u (completed lt a' i p f u' r) = absurd (omega arith)
flag_down a u (handled {b} a' p f u') = (b, p, omega arith)
