-- ===== src/Blk/System/Stage.antt =====
-- Where a request of the disk driver stands, and what the interrupt handler does there.
use virtio_pci_simple_driver.Prelude.{
  ℕ, suc, ◌+◌, ◌%◌, ◌<◌, ◌≡◌, ◌≢◌, refl, sym, ◌∙◌, arith, true, some, u16, get_elem?,
  get_elem?_of_lt, ==_iff, ◌==◌, Bool-cases, inl, inr,
}
use virtio_pci_simple_driver.Blk.{Blk, BlkBuf, Heap, ok, intr, retire, update}
use virtio_pci_simple_driver.Blk.Chain.{IsSized}
use virtio_pci_simple_driver.Blk.System.{Phase, idle, waiting}

-- The request of a caller that waits: published, put into the used ring by the device, or noticed by
-- the interrupt handler.
pub data Stage (blk : Blk) (heap : Heap) (served : ℕ) : Phase → Type 0 where
  rest : blk.avail.idx ≡ served → blk.used_idx ≡ blk.used.idx → Stage blk heap served idle
  queued :
      {ptr head : ℕ} {b : BlkBuf}
      → head < 128
      → blk.avail.idx ≡ u16 (served + 1)
      → get_elem? blk.avail.ring (served % 128) ≡ some head
      → get_elem? blk.info head ≡ some ptr
      → heap ptr ≡ some b
      → b.flag ≡ 1
      → blk.used_idx ≡ blk.used.idx
      → Stage blk heap served (waiting ptr head)
  completed :
      {ptr head len : ℕ} {b : BlkBuf}
      → head < 128
      → blk.avail.idx ≡ served
      → get_elem? blk.info head ≡ some ptr
      → heap ptr ≡ some b
      → b.flag ≡ 1
      → blk.used.idx ≡ u16 (blk.used_idx + 1)
      → get_elem? blk.used.ring (blk.used_idx % 128) ≡ some (record { id = head; len = len })
      → Stage blk heap served (waiting ptr head)
  handled :
      {ptr head : ℕ} {b : BlkBuf}
      → blk.avail.idx ≡ served
      → heap ptr ≡ some b
      → b.flag ≡ 0
      → blk.used_idx ≡ blk.used.idx
      → Stage blk heap served (waiting ptr head)

-- The handler has nothing to do where the indices agree.
pub intr-idle :
    (n : ℕ) (blk : Blk) (heap : Heap)
    → blk.used_idx ≡ blk.used.idx
    → intr (suc n) blk heap ≡ ok (blk, heap)
unfolding intr
intr-idle n blk heap e =
    let same : (blk.used_idx == blk.used.idx) ≡ true = (==_iff blk.used_idx blk.used.idx).1 e in
    rw same refl

-- Otherwise it takes an entry, and goes on.
pub intr-retire :
    (n : ℕ) (blk blk' : Blk) (heap heap' : Heap)
    → blk.used_idx ≢ blk.used.idx
    → retire blk heap ≡ ok (blk', heap')
    → intr (suc n) blk heap ≡ intr n blk' heap'
unfolding intr
intr-retire n blk blk' heap heap' ne e = elim (Bool-cases (blk.used_idx == blk.used.idx)) [
  | inl same ↦ absurd (ne ((==_iff blk.used_idx blk.used.idx).0 same))
  | inr other ↦ rw (other, e) refl
]

pub update_self : (h : Heap) (ptr : ℕ) (b : BlkBuf) → update h ptr b ptr ≡ some b
update_self h ptr b = let same : (ptr == ptr) ≡ true = (==_iff ptr ptr).1 refl in rw same refl

-- What taking the entry of a completed request does.
retire-completed :
    (blk : Blk) (heap : Heap) (ptr head len : ℕ) (b : BlkBuf)
    → IsSized blk
    → head < 128
    → get_elem? blk.info head ≡ some ptr
    → heap ptr ≡ some b
    → get_elem? blk.used.ring (blk.used_idx % 128) ≡ some (record { id = head; len = len })
    → retire blk heap
      ≡ ok (
        record blk { used_idx = u16 (blk.used_idx + 1) },
        update heap ptr (record b { flag = 0 }),
      )
unfolding retire
retire-completed blk heap ptr head len b sized lt info at_ptr used =
    let (st, at_head) = get_elem?_of_lt blk.status head (omega (arith, sized.status_len)) in
    rw (retire, used, at_head, info, at_ptr) refl

-- What two rounds of the handler leave, whatever stage a request has reached: the handler ends, and the request
-- is at the stage it had or is noticed.
pub intr-Stage :
    {blk : Blk} {heap : Heap} {served : ℕ} {phase : Phase}
    → IsSized blk
    → Stage blk heap served phase
    → (n : ℕ)
    → (used_idx : ℕ) × (heap' : Heap) × (intr (suc (suc n)) blk heap
        ≡ ok (record blk { used_idx = used_idx }, heap'))
      × (used_idx ≡ blk.used.idx)
      × Stage (record blk { used_idx = used_idx }) heap' served phase
intr-Stage {blk} {heap} sized (rest a u) n =
    (blk.used_idx, heap, intr-idle (suc n) blk heap u, u, rest a u)
intr-Stage {blk} {heap} sized (queued lt a r i p f u) n =
    (blk.used_idx, heap, intr-idle (suc n) blk heap u, u, queued lt a r i p f u)
intr-Stage {blk} {heap} sized (handled a p f u) n =
    (blk.used_idx, heap, intr-idle (suc n) blk heap u, u, handled a p f u)
intr-Stage {blk} {heap} sized (completed {ptr} {head} {len} {b} lt a i p f u r) n = (
  u16 (blk.used_idx + 1),
  update heap ptr (record b { flag = 0 }),
  intr-retire (suc n) blk _ heap _ (omega arith)
        (retire-completed blk heap ptr head len b sized lt i p r)
      ∙ intr-idle n (record blk { used_idx = u16 (blk.used_idx + 1) })
          (update heap ptr (record b { flag = 0 })) (sym u),
  sym u,
  handled {b = record b { flag = 0 }} a (update_self heap ptr _) refl (sym u),
)
