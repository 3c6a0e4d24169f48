-- ===== src/Rng/System/Stream.antt =====
-- The reads of the entropy driver take the bytes of the source in order.
use virtio_pci_simple_driver.Prelude.{
  ℕ, ◌+◌, ◌%◌, ◌^◌, ◌≤◌, ◌<◌, ◌≡◌, ◌≢◌, refl, sym, ap, subst, ◌∙◌, arith, some, none, true, false,
  ◌==◌, ==_refl, ==_ne, ◌∷◌, u16, get_elem?, get_elem?-set_self, length-set,
}
use virtio_pci_simple_driver.Prelude.Memory.{Bytes, copy}
use virtio_pci_simple_driver.Ring.{Desc}
use virtio_pci_simple_driver.Rng.{Rng, submit, is_waiting, finish}
use virtio_pci_simple_driver.Rng.System.{
  idle, polling, Machine, used_more, Step, begin, look, deliver, take, Steps, stay, then_step,
  IsStart,
}
use virtio_pci_simple_driver.Rng.System.Stage.{
  replay, AreServed, Stage, rest, queued, filled, Inv, IsStart-Inv, submit-IsSized,
  submit-published,
}

-- The loop goes on exactly while the indices agree.
pub is_waiting-same : (rng : Rng) → rng.used_idx ≡ rng.used.idx → is_waiting rng rng.used ≡ none
unfolding is_waiting
is_waiting-same rng e =
    let same : (rng.used_idx == rng.used.idx) ≡ true =
      ap (λ (i : ℕ). rng.used_idx == i) (sym e) ∙ ==_refl rng.used_idx in
    rw same refl

pub is_waiting-moved :
    (rng : Rng) → rng.used.idx ≡ u16 (rng.used_idx + 1) → is_waiting rng rng.used ≡ some rng
unfolding is_waiting
is_waiting-moved rng e =
    let other : (rng.used_idx == rng.used.idx) ≡ false =
      ==_ne rng.used_idx rng.used.idx (omega arith) in
    rw other refl

pub finish-found :
    (rng : Rng) (head n : ℕ)
    → rng.vr.size ≡ 8
    → get_elem? rng.used.ring (rng.used_idx % 8) ≡ some (record { id = head; len = n })
    → finish rng ≡ some (n, record rng { used_idx = u16 (rng.used_idx + 1) })
unfolding finish
finish-found rng head n queue found =
    let at_idx = ap (λ (s : ℕ). get_elem? rng.used.ring (rng.used_idx % s)) queue ∙ found in
    rw (finish, at_idx) refl

begin-Inv :
    {source mem : Bytes} {m : Machine} (buf len : ℕ)
    → m.phase ≡ idle
    → buf < 2 ^ 64
    → len < 2 ^ 32
    → Inv source mem m
    → Inv source mem (record m { rng = submit m.rng buf len; phase = polling buf len })
unfolding submit
begin-Inv {m = m} buf len at_rest wide short inv = elim inv.stage [
  | rest ph a u e ↦
      let (moved, published, desc) =
        submit-published m.rng buf len m.served inv.sized a wide short in
      record {
        sized = submit-IsSized m.rng buf len inv.sized;
        served = inv.served;
        stage = queued refl moved published desc u e;
      }
  | queued ph a r d u e ↦ cc
  | filled ph a u r some_got fits e ↦ cc
]

deliver-Inv :
    {source mem : Bytes} {m : Machine} {head : ℕ} {d : Desc} (n : ℕ)
    → m.served ≢ m.rng.avail.idx
    → get_elem? m.rng.avail.ring (m.served % 8) ≡ some head
    → get_elem? m.rng.desc head ≡ some d
    → 0 < n
    → n ≤ d.len
    → Inv source mem m
    → Inv source mem (record m {
      rng = record m.rng { used = used_more m.rng.used head n };
      served = u16 (m.served + 1);
      mem = copy n source m.drawn m.mem d.addr;
      drawn = m.drawn + n;
    })
unfolding replay
deliver-Inv {source} {mem} {m} {head} {d} n ne r at_head more fits inv = elim inv.stage [
  | rest ph a u e ↦ absurd (ne (sym a))
  | filled ph a u r' more' fits' e ↦ absurd (ne (sym a))
  | queued {buf} {len} {head = k} ph a r' d' u e ↦
      let same : k ≡ head = cc in
      let same_desc : d ≡ record { addr = buf; len = len; flags = 2; next = 0 } = cc in
      let before = replay source mem m.reads in
      record {
        sized = record {
          queue = inv.sized.queue;
          desc_len = inv.sized.desc_len;
          avail_len = inv.sized.avail_len;
          used_len = length-set m.rng.used.ring _ _ ∙ inv.sized.used_len;
        };
        served = inv.served;
        stage =
            filled {buf = buf} {len = len} ph a (ap (λ (i : ℕ). u16 (i + 1)) (sym u))
              (ap (λ (i : ℕ). get_elem? (used_more m.rng.used head n).ring (i % 8)) u
                ∙ get_elem?-set_self m.rng.used.ring (m.rng.used.idx % 8) _
                    (omega (arith, inv.sized.used_len)))
              more (subst (λ (x : Desc). n ≤ x.len) same_desc fits)
              (ap (λ (p : Bytes × ℕ). (copy n source p.1 p.0 d.addr, p.1 + n)) e
                ∙ ap (λ (x : Desc). (copy n source before.1 before.0 x.addr, before.1 + n))
                    same_desc);
      }
]

take-Inv :
    {source mem : Bytes} {m : Machine} {buf len got : ℕ} {rng' rng'' : Rng}
    → m.phase ≡ polling buf len
    → is_waiting m.rng m.rng.used ≡ some rng'
    → finish rng' ≡ some (got, rng'')
    → Inv source mem m
    → Inv source mem (record m {
      rng = rng'';
      phase = idle;
      reads = record { buf = buf; len = len; got = got } ∷ m.reads;
    })
take-Inv {source} {mem} {m} {buf} {len} {got} {rng'} {rng''} ph w f inv = elim inv.stage [
  | rest ph' a u e ↦ cc
  | queued ph' a r d u e ↦ let still = is_waiting-same m.rng u in cc
  | filled {buf = buf'} {len = len'} {head} {n} ph' a u r more fits e ↦
      let found = finish-found m.rng head n inv.sized.queue r in
      let moved = is_waiting-moved m.rng u in
      let same : rng' ≡ m.rng = cc in
      let after : rng'' ≡ record m.rng { used_idx = u16 (m.rng.used_idx + 1) } = cc in
      let count : n ≡ got = cc in
      let same_buf : buf' ≡ buf = cc in
      let same_len : len' ≡ len = cc in
      rw (after, ← count, ← same_buf, ← same_len)
        (record {
          sized = record {
            queue = inv.sized.queue;
            desc_len = inv.sized.desc_len;
            avail_len = inv.sized.avail_len;
            used_len = inv.sized.used_len;
          };
          served = (more, fits, inv.served);
          stage = rest refl a (sym u) e;
        })
]

pub Step-Inv :
    {source mem : Bytes} {m n : Machine} → Step source m n → Inv source mem m → Inv source mem n
Step-Inv (begin buf len ph wide some_len short) inv = begin-Inv buf len ph wide short inv
Step-Inv (look ph w) inv = inv
Step-Inv (deliver n ne r d writable more fits) inv = deliver-Inv n ne r d more fits inv
Step-Inv (take ph w f) inv = take-Inv ph w f inv

pub Steps-Inv :
    {source mem : Bytes} {m n : Machine} → Steps source m n → Inv source mem m → Inv source mem n
Steps-Inv stay inv = inv
Steps-Inv (then_step ss s) inv = Step-Inv s (Steps-Inv ss inv)

Stage-idle :
    {source mem : Bytes} {m : Machine}
    → m.phase ≡ idle
    → Stage source mem m
    → (m.mem, m.drawn) ≡ replay source mem m.reads
Stage-idle at_rest (rest ph a u e) = e
Stage-idle at_rest (queued ph a r d u e) = cc
Stage-idle at_rest (filled ph a u r more fits e) = cc

-- Refinement: whenever a run of `virtio_pci_rng_read` and its device from the start on finds the driver idle, the
-- reads that have returned have each got at least one byte and at most as many as they asked for, and memory
-- is what it was with each buffer filled, in the order of the reads, with the next bytes of the device's
-- source: no byte is lost, and none is given out twice.
pub idle-replay_reads :
    {source : Bytes} {m n : Machine}
    → IsStart m
    → Steps source m n
    → n.phase ≡ idle
    → ((n.mem, n.drawn) ≡ replay source m.mem n.reads) × AreServed n.reads
idle-replay_reads {source} {m} st ss at_rest =
    let inv = Steps-Inv ss (IsStart-Inv source m st) in (Stage-idle at_rest inv.stage, inv.served)
