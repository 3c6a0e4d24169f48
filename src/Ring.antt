-- ===== src/Ring.antt =====
-- src/driver/virtio/virtio-ring.h and virtio-ring.c: the split virtqueue.
pub mod Layout
pub mod Pending
use virtio_pci_simple_driver.Prelude.{
  ℕ, zero, suc, ◌+◌, ◌*◌, ◌%◌, ◌^◌, bit_and, List, [], ◌∷◌, ltb, if◌then◌else◌, u16, u32, u64, ℤ,
  pos, negsuc, set, get_elem?, Option,
}

abbrev pub desc_f_next : ℕ
desc_f_next = 1

abbrev pub desc_f_write : ℕ
desc_f_write = 2

-- `struct vring_desc`, 16 bytes.
pub record Desc : Type 0 where
  pub addr : ℕ
  pub len : ℕ
  pub flags : ℕ
  pub next : ℕ

-- `struct vring_avail`, 4 bytes and 2 for each entry.
pub record Avail : Type 0 where
  pub flags : ℕ
  pub idx : ℕ
  pub ring : List ℕ

-- `struct vring_used_elem`, 8 bytes.
pub record UsedElem : Type 0 where
  pub id : ℕ
  pub len : ℕ

-- `struct vring_used`, 4 bytes and 8 for each entry.
pub record Used : Type 0 where
  pub flags : ℕ
  pub idx : ℕ
  pub ring : List UsedElem

-- `struct vring`, its pointers as addresses.
pub record Vring : Type 0 where
  pub size : ℕ
  pub qid : ℕ
  pub desc : ℕ
  pub avail : ℕ
  pub used : ℕ
  pub notify_addr : ℕ

-- `VQ_ALIGN`
unfoldable pub vq_align : ℕ → ℕ
vq_align addr = bit_and (u64 (addr + 0xfff)) 0xffff_ffff_ffff_f000

-- `virtio_vring_size`: the sum is kept in a `u32`.
unfoldable pub vring_size : ℕ → ℕ
vring_size qsize =
    let size = u32 (vq_align (u64 (qsize * 16))) in
    let size = u32 (size + vq_align (u64 (4 + qsize * 2))) in
    u32 (size + vq_align (u64 (4 + qsize * 8)))

-- `virtio_vring_init`. `buf` is an address; what it prints is left out.
unfoldable pub vring_init : Vring → (buf buf_len qsize qid : ℕ) → ℤ × Vring
vring_init vr buf buf_len qsize qid =
    if ltb buf_len (vring_size qsize)
    then (negsuc 0, vr)
    else (let avail = vq_align (buf + qsize * 16) in
        let used = vq_align (avail + 4 + 2 * qsize) in
        let vr' = record vr {
          size = qsize;
          qid = qid;
          desc = vq_align buf;
          avail = avail;
          used = used;
        } in
        let pt = used + 4 + 8 * qsize + 4 + 4 in
        if ltb (buf + buf_len) pt then (negsuc 1, vr') else (pos 0, vr'))

-- The fences of `virtio_vring_fill_desc`, behind its stores, and of `virtio_vring_add_avail`, around the
-- store of the index. The log of accesses has no stores to memory, so the two functions below give
-- the memory, and their callers, Blk.begin_rw and Rng.rng_read, pass the fences.
abbrev pub fill_desc_fences : ℕ
fill_desc_fences = 1

abbrev pub add_avail_fences : ℕ
add_avail_fences = 2

-- `virtio_vring_fill_desc` on entry `i` of a descriptor table, but for its fence.
unfoldable pub fill_desc : List Desc → (i addr len flags next : ℕ) → List Desc
fill_desc table i addr len flags next =
    set table i (record { addr = u64 addr; len = u32 len; flags = u16 flags; next = u16 next })

-- `virtio_vring_add_avail`: the entry is stored before the index that publishes it. Its two
-- fences are the count above.
unfoldable pub add_avail : Avail → (idx qsize : ℕ) → Avail
add_avail a idx qsize =
    let a' = record a { ring = set a.ring (a.idx % qsize) (u16 idx) } in
    record a' { idx = u16 (a'.idx + 1) }
