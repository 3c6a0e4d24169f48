-- ===== src/Ring/Layout.antt =====
-- `virtio_vring_size` and `virtio_vring_init`: where the three parts of the queue lie.
use virtio_pci_simple_driver.Prelude.{
  ℕ, ◌+◌, ◌*◌, ◌%◌, ◌^◌, ◌≤◌, ◌<◌, ◌≡◌, ◌≢◌, arith, pos, negsuc, ltb, if◌then◌else◌, u64,
}
use virtio_pci_simple_driver.Prelude.Pages.{page_up, mask-page_up}
use virtio_pci_simple_driver.Ring.{Vring, vq_align, vring_size, vring_init}

pub vq_align-eq-page_up : (a : ℕ) → a + 0xfff < 2 ^ 64 → vq_align a ≡ page_up a
unfolding vq_align
vq_align-eq-page_up a h = mask-page_up a h

-- What a ready queue of `qsize` entries in `buf_len` bytes at `buf` looks like: three parts on page
-- boundaries, in order, none reaching into the next, and all inside the buffer.
pub record IsLaidOut (v : Vring) (buf buf_len qsize qid : ℕ) : Type 0 where
  pub sized : v.size ≡ qsize
  pub named : v.qid ≡ qid
  pub pages : (v.desc % 4096 ≡ 0) × (v.avail % 4096 ≡ 0) × (v.used % 4096 ≡ 0)
  pub first : buf ≤ v.desc
  pub desc_fits : v.desc + 16 * qsize ≤ v.avail
  pub avail_fits : v.avail + 4 + 2 * qsize ≤ v.used
  pub used_fits : v.used + 4 + 8 * qsize ≤ buf + buf_len

-- `virtio_vring_init` on a page-aligned buffer below 2^63: where it returns 0, whatever the
-- 32-bit queue size (also one for which the sum of `virtio_vring_size` wraps), the three parts
-- of the queue are on page boundaries, apart, and inside the buffer.
pub vring_init-IsLaidOut :
    (vr : Vring) (buf buf_len qsize qid : ℕ)
    → buf % 4096 ≡ 0
    → buf < 2 ^ 63
    → qsize < 2 ^ 32
    → (vring_init vr buf buf_len qsize qid).0 ≡ pos 0
    → IsLaidOut (vring_init vr buf buf_len qsize qid).1 buf buf_len qsize qid
unfolding vring_init
vring_init-IsLaidOut vr buf buf_len qsize qid page low small ready =
    let avail = vq_align (buf + qsize * 16) in
    ground (
      arith,
      vq_align-eq-page_up buf,
      vq_align-eq-page_up (buf + qsize * 16),
      vq_align-eq-page_up (avail + 4 + 2 * qsize),
    )

pub vring_size-eq-page_up :
    (qsize : ℕ)
    → qsize < 2 ^ 27
    → vring_size qsize ≡ page_up (qsize * 16) + page_up (4 + qsize * 2) + page_up (4 + qsize * 8)
unfolding vring_size
vring_size-eq-page_up qsize small = ground (
  arith,
  vq_align-eq-page_up (u64 (qsize * 16)),
  vq_align-eq-page_up (u64 (4 + qsize * 2)),
  vq_align-eq-page_up (u64 (4 + qsize * 8)),
)

-- The return code of `virtio_vring_init` on a page-aligned buffer below 2^63, for a queue size
-- below 2^27 that is not 511 modulo 512: -1 exactly when the buffer is smaller than
-- `virtio_vring_size`, and otherwise 0, so -2 never.
pub vring_init_returns :
    (vr : Vring) (buf buf_len qsize qid : ℕ)
    → buf % 4096 ≡ 0
    → buf < 2 ^ 63
    → qsize < 2 ^ 27
    → qsize % 512 ≢ 511
    → (vring_init vr buf buf_len qsize qid).0
      ≡ (if ltb buf_len (vring_size qsize) then negsuc 0 else pos 0)
unfolding vring_init
vring_init_returns vr buf buf_len qsize qid page low small ne =
    let avail = vq_align (buf + qsize * 16) in
    ground (
      arith,
      vring_size-eq-page_up qsize small,
      vq_align-eq-page_up buf,
      vq_align-eq-page_up (buf + qsize * 16),
      vq_align-eq-page_up (avail + 4 + 2 * qsize),
    )

-- On a buffer below 2^63 that is not page-aligned and that is at least `virtio_vring_size` long,
-- `virtio_vring_init` places the available ring on top of the descriptor table, at every queue
-- size that leaves both in the buffer's first page.
pub vring_init_unaligned :
    (vr : Vring) (buf buf_len qsize qid : ℕ)
    → 0 < buf % 4096
    → buf % 4096 + qsize * 16 ≤ 4096
    → buf < 2 ^ 63
    → vring_size qsize ≤ buf_len
    → (vring_init vr buf buf_len qsize qid).1.avail ≡ (vring_init vr buf buf_len qsize qid).1.desc
unfolding vring_init
vring_init_unaligned vr buf buf_len qsize qid off fits low enough =
    ground (arith, vq_align-eq-page_up buf, vq_align-eq-page_up (buf + qsize * 16))
