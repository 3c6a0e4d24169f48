-- ===== src/Rng/System/Reads.antt =====
-- A read of the entropy driver returns what the device delivers.
use virtio_pci_simple_driver.Prelude.{
  ℕ, zero, suc, ◌+◌, ◌%◌, ◌^◌, ◌≤◌, ◌<◌, ◌≡◌, refl, sym, ap, ◌∙◌, arith, some, [], ◌∷◌, ◌++◌,
  replicate, u16, get_elem?, get_elem?-set_self,
}
use virtio_pci_simple_driver.Prelude.Memory.{Bytes, copy}
use virtio_pci_simple_driver.Ring.{Used}
use virtio_pci_simple_driver.Rng.{Rng, submit, poll}
use virtio_pci_simple_driver.Rng.Polling.{AllStale, poll-append, poll-moved}
use virtio_pci_simple_driver.Rng.System.{
  idle, Machine, used_more, begin, deliver, take, Steps, stay, then_step, IsSized, IsStart,
}
use virtio_pci_simple_driver.Rng.System.Stage.{
  Stage, rest, queued, filled, IsStart-Inv, submit-published,
}
use virtio_pci_simple_driver.Rng.System.Stream.{Steps-Inv, is_waiting-moved, finish-found}

-- What the device leaves in the used ring for a read on a queue at rest.
abbrev delivered : (rng : Rng) (n : ℕ) → Used
delivered rng n = used_more rng.used (rng.avail_idx % 8) n

delivered-at :
    (rng : Rng) (n : ℕ)
    → IsSized rng
    → rng.used_idx ≡ rng.used.idx
    → (get_elem? (delivered rng n).ring (rng.used_idx % 8)
        ≡ some (record { id = rng.avail_idx % 8; len = n }))
      × ((delivered rng n).idx ≡ u16 (rng.used_idx + 1))
delivered-at rng n sized u = (
  ap (λ (i : ℕ). get_elem? (delivered rng n).ring (i % 8)) u
      ∙ get_elem?-set_self rng.used.ring (rng.used.idx % 8) _ (omega (arith, sized.used_len)),
  ap (λ (i : ℕ). u16 (i + 1)) (sym u),
)

stale-all : (used : Used) (idx k : ℕ) → idx ≡ used.idx → AllStale idx (replicate k used)
stale-all used idx zero e = tt
stale-all used idx (suc k) e = (e, stale-all used idx k e)

-- The loop as a function, over what it finds: the ring as it was, any number of times, and then the delivery.
polled :
    (rng : Rng) (buf len n k : ℕ)
    → IsSized rng
    → rng.used_idx ≡ rng.used.idx
    → poll (submit rng buf len) (replicate k rng.used ++ (delivered rng n ∷ []))
      ≡ some (
        n,
        record (submit rng buf len) { used = delivered rng n; used_idx = u16 (rng.used_idx + 1) },
      )
unfolding submit
polled rng buf len n k sized u =
    let (found, moved) = delivered-at rng n sized u in
    let at_idx =
      ap (λ (s : ℕ). get_elem? (delivered rng n).ring (rng.used_idx % s)) sized.queue ∙ found in
    poll-append (submit rng buf len) (replicate k rng.used) (delivered rng n ∷ [])
      (stale-all rng.used rng.used_idx k u)
    ∙ poll-moved (submit rng buf len) (delivered rng n) []
        (record { id = rng.avail_idx % 8; len = n }) (λ e. omega (arith, e, moved)) at_idx

-- The call, the device and the return, from rest.
run_read :
    {source : Bytes} {m : Machine} (buf len n : ℕ)
    → buf < 2 ^ 64
    → 0 < n
    → n ≤ len
    → len < 2 ^ 32
    → IsSized m.rng
    → m.phase ≡ idle
    → m.rng.avail.idx ≡ m.served
    → m.rng.used_idx ≡ m.rng.used.idx
    → Steps source m (record m {
      rng = record (submit m.rng buf len) {
        used = delivered m.rng n;
        used_idx = u16 (m.rng.used_idx + 1);
      };
      served = u16 (m.served + 1);
      phase = idle;
      mem = copy n source m.drawn m.mem buf;
      drawn = m.drawn + n;
      reads = record { buf = buf; len = len; got = n } ∷ m.reads;
    })
unfolding submit
run_read {m = m} buf len n wide more fits short sized at_rest a u =
    let (moved, published, desc) = submit-published m.rng buf len m.served sized a wide short in
    let (found, ahead) = delivered-at m.rng n sized u in
    let rng : Rng = record (submit m.rng buf len) { used = delivered m.rng n } in
    then_step
      (then_step (then_step stay (begin buf len at_rest wide (omega arith) short))
        (deliver n (omega (arith, moved)) published desc refl more fits))
      (take refl (is_waiting-moved rng ahead)
        (finish-found rng (m.rng.avail_idx % 8) n sized.queue found))

Inv-idle :
    {source mem : Bytes} {m : Machine}
    → m.phase ≡ idle
    → Stage source mem m
    → (m.rng.avail.idx ≡ m.served) × (m.rng.used_idx ≡ m.rng.used.idx)
Inv-idle at_rest (rest ph a u e) = (a, u)
Inv-idle at_rest (queued ph a r d u e) = cc
Inv-idle at_rest (filled ph a u r more fits e) = cc

-- In every idle state that a run from the start reaches, a call of `virtio_pci_rng_read` can be completed: for each
-- number of bytes from 1 up to a length of 32 bits, and a buffer at a 64-bit address, some run of the driver and
-- its device ends with the return of the call, with that many bytes of the source in the buffer and nothing
-- else changed in memory. The polling loop, where it finds the used ring as it was, any number of times, and
-- then as the device has left it, returns that number and the state of the driver in which the run ends.
pub rng_read_completes :
    {source : Bytes} {m n : Machine} (buf len got k : ℕ)
    → IsStart m
    → Steps source m n
    → n.phase ≡ idle
    → buf < 2 ^ 64
    → 0 < got
    → got ≤ len
    → len < 2 ^ 32
    → (t : Machine) × Steps source n t
      × (t.phase ≡ idle)
      × (t.reads ≡ record { buf = buf; len = len; got = got } ∷ n.reads)
      × (t.mem ≡ copy got source n.drawn n.mem buf)
      × (poll (submit n.rng buf len) (replicate k n.rng.used ++ (t.rng.used ∷ []))
          ≡ some (got, t.rng))
rng_read_completes {source} {m} {n} buf len got k st ss at_rest wide more fits short =
    let inv = Steps-Inv ss (IsStart-Inv source m st) in
    let (a, u) = Inv-idle at_rest inv.stage in
    (
      _,
      run_read buf len got wide more fits short inv.sized at_rest a u,
      refl,
      refl,
      refl,
      polled n.rng buf len got k inv.sized u,
    )
