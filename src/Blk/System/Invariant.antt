-- ===== src/Blk/System/Invariant.antt =====
-- What holds in every reachable state of the disk driver and its device.
use virtio_pci_simple_driver.Prelude.{
  ℕ, ◌+◌, ◌%◌, ◌≡◌, ◌≢◌, refl, ap, subst, sym, ◌∙◌, arith, some, none, u16, set, get_elem?,
  length-set, get_elem?-set_self, Bool-cases, inl, inr,
}
use virtio_pci_simple_driver.Ring.{add_avail, fill_desc}
use virtio_pci_simple_driver.Blk.{Blk, BlkBuf, Heap, index, release, submit, enqueue, fits, update}
use virtio_pci_simple_driver.Blk.Chain.{IsSized, index_lt, index_fits}
use virtio_pci_simple_driver.Blk.System.{
  Phase, waiting, System, Step, begin, serve, interrupt, resume, complete, Reach, start, later,
}
use virtio_pci_simple_driver.Blk.System.Stage.{
  Stage, rest, queued, completed, handled, intr-Stage, update_self,
}

enqueue-IsSized :
    (base ptr : ℕ) (blk : Blk) (b : BlkBuf) → IsSized blk → IsSized (enqueue base ptr blk b)
unfolding enqueue fill_desc add_avail
enqueue-IsSized base ptr blk b sized = record {
  queue = sized.queue;
  status_len = omega (arith, sized.status_len, length-set blk.status (index blk 0) 0xff);
  info_len = omega (arith, sized.info_len, length-set blk.info (index blk 0) ptr);
  ops_len = omega (arith, sized.ops_len, length-set blk.ops (index blk 0) _);
  desc_len =
      length-set _ (index blk 2) _
      ∙ length-set _ (index blk 1) _
      ∙ length-set blk.desc (index blk 0) _
      ∙ sized.desc_len;
  avail_len = length-set blk.avail.ring _ _ ∙ sized.avail_len;
  used_len = sized.used_len;
}

pub complete-IsSized :
    (blk : Blk) (head len st : ℕ) → IsSized blk → IsSized (complete blk head len st)
complete-IsSized blk head len st sized = record {
  queue = sized.queue;
  status_len = length-set blk.status head st ∙ sized.status_len;
  info_len = sized.info_len;
  ops_len = sized.ops_len;
  desc_len = sized.desc_len;
  avail_len = sized.avail_len;
  used_len = length-set blk.used.ring _ _ ∙ sized.used_len;
}

pub retired-IsSized :
    (blk : Blk) (used_idx : ℕ) → IsSized blk → IsSized (record blk { used_idx = used_idx })
retired-IsSized blk used_idx sized = record {
  queue = sized.queue;
  status_len = sized.status_len;
  info_len = sized.info_len;
  ops_len = sized.ops_len;
  desc_len = sized.desc_len;
  avail_len = sized.avail_len;
  used_len = sized.used_len;
}

release-IsSized : (head : ℕ) (blk : Blk) → IsSized blk → IsSized (release head blk)
unfolding release
release-IsSized head blk sized = record {
  queue = sized.queue;
  status_len = sized.status_len;
  info_len = length-set blk.info head 0 ∙ sized.info_len;
  ops_len = sized.ops_len;
  desc_len = sized.desc_len;
  avail_len = sized.avail_len;
  used_len = sized.used_len;
}

-- The head and the index that a submission publishes while nothing is under way.
pub enqueue-published :
    (base ptr : ℕ) (blk : Blk) (b : BlkBuf)
    → IsSized blk
    → (served : ℕ) → blk.avail.idx ≡ served
    → ((enqueue base ptr blk b).avail.idx ≡ u16 (served + 1))
      × (get_elem? (enqueue base ptr blk b).avail.ring (served % 128) ≡ some (index blk 0))
unfolding enqueue add_avail
enqueue-published base ptr blk b sized served a = (
  ap (λ i. u16 (i + 1)) a,
  rw (index_fits base ptr blk b sized 0, a, sized.queue)
      (get_elem?-set_self blk.avail.ring (served % 128) _ (omega (arith, sized.avail_len))),
)

-- It leaves a queued request.
enqueue-Stage :
    (base ptr : ℕ) (blk : Blk) (b : BlkBuf) (heap : Heap)
    → IsSized blk
    → (served : ℕ) → blk.avail.idx ≡ served
    → blk.used_idx ≡ blk.used.idx
    → Stage
        (enqueue base ptr blk b)
        (update heap ptr (record b { flag = 1 }))
        served
        (waiting ptr (index blk 0))
unfolding enqueue
enqueue-Stage base ptr blk b heap sized served a u =
    let (moved, published) = enqueue-published base ptr blk b sized served a in
    queued {b = record b { flag = 1 }} (index_lt base ptr blk b sized 0) moved published
      (get_elem?-set_self blk.info (index blk 0) ptr
        (omega (arith, sized.info_len, index_lt base ptr blk b sized 0)))
      (update_self heap ptr _) refl u

abbrev pub Inv : System → Type 0
Inv s = IsSized s.blk × Stage s.blk s.heap s.served s.phase

pub submit-eq :
    (base ptr : ℕ) (blk : Blk) (b : BlkBuf) (out : Blk × BlkBuf)
    → submit base ptr blk b ≡ some out
    → (enqueue base ptr blk b, record b { flag = 1 }) ≡ out
unfolding submit
submit-eq base ptr blk b out e = elim (Bool-cases (fits blk b)) [
  | inl y ↦
      let e' : some (enqueue base ptr blk b, record b { flag = 1 }) ≡ some out = rw y at e in cc
  | inr y ↦ let e' : none ≡ some out = rw y at e in cc
]

-- The device puts the queued request into the used ring; at any other stage it has nothing to serve.
pub serve-Stage :
    {blk : Blk} {heap : Heap} {served head : ℕ} {phase : Phase} (len st : ℕ)
    → IsSized blk
    → served ≢ blk.avail.idx
    → get_elem? blk.avail.ring (served % 128) ≡ some head
    → Stage blk heap served phase
    → Stage (complete blk head len st) heap (u16 (served + 1)) phase
serve-Stage len st sized ne r (rest a u) = absurd (ne (sym a))
serve-Stage len st sized ne r (handled a p f u) = absurd (ne (sym a))
serve-Stage len st sized ne r (completed lt a i p f u r') = absurd (ne (sym a))
serve-Stage {blk} {heap} {served} {head} len st sized ne r
      (queued {ptr} {head = k} lt a r' i p f u) =
    completed {len = len} lt a i p f (ap (λ i. u16 (i + 1)) (sym u)) placed
  where
    same : head ≡ k
    same = cc

    placed :
        get_elem?
          (set blk.used.ring (blk.used.idx % 128) (record { id = head; len = len }))
          (blk.used_idx % 128)
        ≡ some (record { id = k; len = len })
    placed =
        rw (u, same)
          (get_elem?-set_self blk.used.ring (blk.used.idx % 128) _ (omega (arith, sized.used_len)))

-- The caller goes on once the flag is down, and then nothing is under way.
pub resume-Stage :
    {blk : Blk} {heap : Heap} {served ptr head : ℕ} {b : BlkBuf}
    → heap ptr ≡ some b
    → b.flag ≢ 1
    → Stage blk heap served (waiting ptr head)
    → (blk.avail.idx ≡ served) × (blk.used_idx ≡ blk.used.idx)
resume-Stage p ne (queued {b = c} lt a r i q f u) = absurd (ne cc)
resume-Stage p ne (completed {b = c} lt a i q f u r) = absurd (ne cc)
resume-Stage p ne (handled a q f u) = (a, u)

-- Every step of the system keeps the invariant.
pub Step-Inv : {base : ℕ} {s t : System} → Step base s t → Inv s → Inv t
unfolding release
Step-Inv {base} (begin {blk} {heap} {served} {ptr} {b} {out} p q) (sized, rest a u) =
    subst
      (λ o. Inv (record {
        blk = o.0;
        heap = update heap ptr o.1;
        served = served;
        phase = waiting ptr (index blk 0);
      }))
      (submit-eq base ptr blk b out q)
      (enqueue-IsSized base ptr blk b sized, enqueue-Stage base ptr blk b heap sized served a u)
Step-Inv (serve {blk} {heap} {served} {head} len st ne r) (sized, stage) =
    (complete-IsSized blk head len st sized, serve-Stage len st sized ne r stage)
Step-Inv (interrupt {blk} {heap} {served} {phase} {out} n q) (sized, stage) =
    let (used_idx, heap', e, _, stage') = intr-Stage sized stage n in
    let same : (record blk { used_idx = used_idx }, heap') ≡ out = cc in
    subst (λ o. IsSized o.0 × Stage o.0 o.1 served phase) same
      (retired-IsSized blk used_idx sized, stage')
Step-Inv (resume {blk} {head} p ne) (sized, stage) =
    let (a, u) = resume-Stage p ne stage in (release-IsSized head blk sized, rest a u)

-- In every reachable state the arrays have their sizes, and a request stands at one of four stages: none is under
-- way and both rings are taken up to their indices; or the caller waits, and its request is published with its
-- buffer noted under the head and its flag up; or it is in the used ring, one entry ahead of used_idx, with the
-- flag still up; or the flag is down and nothing is ahead.
pub Reach-Inv : {base : ℕ} {s : System} → Reach base s → Inv s
Reach-Inv (start {s} st) =
    (st.sized, subst (λ p. Stage s.blk s.heap s.served p) (sym st.at_rest) (rest st.taken st.seen))
Reach-Inv (later r step) = Step-Inv step (Reach-Inv r)
