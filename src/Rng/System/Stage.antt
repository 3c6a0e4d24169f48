-- ===== src/Rng/System/Stage.antt =====
-- Where a read of the entropy driver stands.
use virtio_pci_simple_driver.Prelude.{
  ℕ, ◌+◌, ◌%◌, ◌^◌, ◌≤◌, ◌<◌, ◌≡◌, refl, ap, ◌∙◌, arith, some, List, [], ◌∷◌, u16, u32, u64,
  get_elem?, get_elem?-set_self, length-set,
}
use virtio_pci_simple_driver.Prelude.Memory.{Bytes, copy}
use virtio_pci_simple_driver.Ring.{fill_desc, add_avail}
use virtio_pci_simple_driver.Rng.{Rng, submit}
use virtio_pci_simple_driver.Rng.System.{idle, polling, Read, Machine, IsSized, IsStart}

-- Memory, and how many bytes have been drawn from the source, after some reads, the latest first: each has its
-- buffer filled with the next bytes.
unfoldable pub replay : Bytes → Bytes → List Read → Bytes × ℕ
replay source mem [] = (mem, 0)
replay source mem (r ∷ rs) =
    let before = replay source mem rs in
    (copy r.got source before.1 before.0 r.buf, before.1 + r.got)

-- Every read has got at least one byte and no more than it asked for.
abbrev pub AreServed : List Read → Type 0
AreServed [] = Unit
AreServed (r ∷ rs) = (0 < r.got) × (r.got ≤ r.len) × AreServed rs

-- No read under way, one that is published, and one that the device has carried out.
pub data Stage (source mem : Bytes) (m : Machine) : Type 0 where
  rest :
      m.phase ≡ idle
      → m.rng.avail.idx ≡ m.served
      → m.rng.used_idx ≡ m.rng.used.idx
      → (m.mem, m.drawn) ≡ replay source mem m.reads
      → Stage source mem m
  queued :
      {buf len head : ℕ}
      → m.phase ≡ polling buf len
      → m.rng.avail.idx ≡ u16 (m.served + 1)
      → get_elem? m.rng.avail.ring (m.served % 8) ≡ some head
      → get_elem? m.rng.desc head ≡ some (record { addr = buf; len = len; flags = 2; next = 0 })
      → m.rng.used_idx ≡ m.rng.used.idx
      → (m.mem, m.drawn) ≡ replay source mem m.reads
      → Stage source mem m
  filled :
      {buf len head n : ℕ}
      → m.phase ≡ polling buf len
      → m.rng.avail.idx ≡ m.served
      → m.rng.used.idx ≡ u16 (m.rng.used_idx + 1)
      → get_elem? m.rng.used.ring (m.rng.used_idx % 8) ≡ some (record { id = head; len = n })
      → 0 < n
      → n ≤ len
      → (m.mem, m.drawn) ≡ replay source mem (record { buf = buf; len = len; got = n } ∷ m.reads)
      → Stage source mem m

pub record Inv (source mem : Bytes) (m : Machine) : Type 0 where
  pub sized : IsSized m.rng
  pub served : AreServed m.reads
  pub stage : Stage source mem m

pub IsStart-Inv : (source : Bytes) (m : Machine) → IsStart m → Inv source m.mem m
unfolding replay
IsStart-Inv source m st = record {
  sized = st.sized;
  served = rw st.none_read tt;
  stage = rest st.at_rest st.taken st.seen (rw (st.none_read, st.none_drawn) refl);
}

pub submit-IsSized : (rng : Rng) (buf len : ℕ) → IsSized rng → IsSized (submit rng buf len)
unfolding submit fill_desc add_avail
submit-IsSized rng buf len sized = record {
  queue = sized.queue;
  desc_len = length-set rng.desc _ _ ∙ sized.desc_len;
  avail_len = length-set rng.avail.ring _ _ ∙ sized.avail_len;
  used_len = sized.used_len;
}

-- The descriptor and the ring entry of a read.
pub submit-published :
    (rng : Rng) (buf len served : ℕ)
    → IsSized rng
    → rng.avail.idx ≡ served
    → buf < 2 ^ 64
    → len < 2 ^ 32
    → let rng' = submit rng buf len in
      (rng'.avail.idx ≡ u16 (served + 1))
      × (get_elem? rng'.avail.ring (served % 8) ≡ some (rng.avail_idx % 8))
      × (get_elem? rng'.desc (rng.avail_idx % 8)
          ≡ some (record { addr = buf; len = len; flags = 2; next = 0 }))
unfolding submit fill_desc add_avail
submit-published rng buf len served sized e wide short =
    let at_buf : u64 buf ≡ buf = omega arith in
    let whole : u32 len ≡ len = omega arith in
    let word : u16 (rng.avail_idx % 8) ≡ rng.avail_idx % 8 = omega arith in
    rw (sized.queue, e, at_buf, whole)
      (
        refl,
        get_elem?-set_self rng.avail.ring (served % 8) _ (omega (arith, sized.avail_len))
            ∙ ap some word,
        get_elem?-set_self rng.desc (rng.avail_idx % 8) _ (omega (arith, sized.desc_len)),
      )
