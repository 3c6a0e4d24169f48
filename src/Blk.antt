-- ===== src/Blk.antt =====
-- src/driver/virtio/virtio-blk.h and virtio-pci-blk.c: the disk, with an interrupt for completion.
pub mod Config
pub mod Init
pub mod Chain
pub mod Capacity
pub mod System
pub mod Transfer
pub mod Enabled
pub mod Ready
use virtio_pci_simple_driver.Prelude.{
  ℕ, zero, suc, ◌+◌, ◌*◌, ◌/◌, ◌%◌, ◌^◌, bit_or, Option, none, some, List, ◌==◌, ltb, if◌then◌else◌,
  u16, u32, ℤ, pos, negsuc, set, get_elem?, Bool, not,
}
use virtio_pci_simple_driver.Bus.{Bus, Io, pure, ◌>>=◌, ◌>>◌, read, barrier, fences}
use virtio_pci_simple_driver.Pci.{device_probe}
use virtio_pci_simple_driver.Caps.{read_caps}
use virtio_pci_simple_driver.Ring.{
  Vring, Desc, Avail, Used, desc_f_next, desc_f_write, fill_desc, add_avail, fill_desc_fences,
  add_avail_fences,
}
use virtio_pci_simple_driver.VirtioPci.{Hw, print_common_cfg, set_queue_notify, clear_isr}
use virtio_pci_simple_driver.Startup.{
  f_any_layout, f_event_idx, f_indirect_desc, clear_feature, Queue, start, is_zero,
}
use virtio_pci_simple_driver.Blk.Config.{
  blk_f_ro, blk_f_scsi, blk_f_flush, blk_f_config_wce, blk_f_mq, cfg_size, cfg_offset, CfgField,
}
pub use virtio_pci_simple_driver.Blk.Config.{blk_qsize, sector_size, blk_t_in, blk_t_out}
use virtio_pci_simple_driver.Plic
use virtio_pci_simple_driver.Plic.{pcie_irq_pinb}

abbrev pub blk_buf_len : ℕ
blk_buf_len = 12288

-- The features that the driver does not take.
unfoldable pub mask : ℕ → ℕ
mask features = clear_feature f_indirect_desc (
    clear_feature f_event_idx (
      clear_feature f_any_layout (
        clear_feature blk_f_mq (
          clear_feature blk_f_config_wce (
            clear_feature blk_f_flush
              (clear_feature blk_f_scsi (clear_feature blk_f_ro features)))))))

-- `gs_virtio_blk_hw`, `vr`, `qsize` and `capacity` of `gs_virtio_blk`, and the static offset of
-- `pci_alloc_mmio`.
pub record Statics : Type 0 where
  pub hw : Hw
  pub queue : Queue
  pub capacity : ℕ
  pub s_off : ℕ

module _ {D : Type 0} (bus : Bus D) where
  -- `cfg->field`
  abbrev cfg_read : Hw → CfgField → Io D ℕ
  cfg_read hw f = read bus (8 * cfg_size f) (hw.device_cfg + cfg_offset f)

  -- `virtio_pci_blk_cfg`: `capacity` is a `u32`. The reads behind the first are those of its `printf`s:
  -- capacity, size_max, seg_max, the geometry and blk_size.
  unfoldable pub blk_cfg : Hw → Io D ℕ
  blk_cfg hw = do
    capacity ← cfg_read hw CfgField.capacity
    _ ← cfg_read hw CfgField.capacity
    _ ← cfg_read hw CfgField.size_max
    _ ← cfg_read hw CfgField.seg_max
    _ ← cfg_read hw CfgField.cylinders
    _ ← cfg_read hw CfgField.heads
    _ ← cfg_read hw CfgField.sectors
    _ ← cfg_read hw CfgField.blk_size
    pure (u32 capacity)

  -- The end of `virtio_pci_blk_init`, on what steps 1 to 8 return.
  unfoldable pub conclude : Statics → ℤ × Queue → Io D (ℤ × Statics)
  conclude g (r, q) =
      let go = (do
        capacity ← blk_cfg g.hw
        Plic.enable bus pcie_irq_pinb
        pure (r, record g { queue = q; capacity = capacity })) in
      if is_zero r then go else pure (r, record g { queue = q })

  -- `virtio_pci_blk_init` once the device is found. The result of `virtio_pci_read_caps` is not
  -- looked at. `none` means that the fuel of the capability walk ran out.
  unfoldable pub init_at : (fuel buf pci_base : ℕ) → Statics → Io D (Option (ℤ × Statics))
  init_at fuel buf pci_base g = do
    caps ← read_caps bus fuel pci_base g.hw
    elim caps [
      | none ↦ pure none
      | some (_, hw) ↦ do
        print_common_cfg bus hw
        out ← start bus hw mask blk_qsize buf blk_buf_len g.queue
        done ← conclude (record g { hw = hw }) out
        pure (some done)
    ]

  -- `virtio_pci_blk_init`, with `gs_blk_buf` at `buf`.
  unfoldable pub init : (fuel buf : ℕ) → Statics → Io D (Option (ℤ × Statics))
  init fuel buf g = do
    (pci_base, s_off) ← device_probe bus 0x1af4 0x1042 g.s_off
    let g' = record g { s_off = s_off }
    if pci_base == 0 then pure (some (negsuc 0, g')) else init_at fuel buf pci_base g'

-- `struct virtio_blk_req`, 16 bytes.
pub record Request : Type 0 where
  pub type : ℕ
  pub reserved : ℕ
  pub sector : ℕ

-- `struct blk_buf`.
pub record BlkBuf : Type 0 where
  pub addr : ℕ
  pub data_addr : ℕ
  pub data_len : ℕ
  pub is_write : ℕ
  pub flag : ℕ

-- `struct virtio_blk`, with the memory that `vr` points to: the descriptor table and the two rings.
-- Pointers are addresses, 0 for NULL.
pub record Blk : Type 0 where
  pub status : List ℕ
  pub info : List ℕ
  pub ops : List Request
  pub vr : Vring
  pub desc : List Desc
  pub avail : Avail
  pub used : Used
  pub capacity : ℕ
  pub used_idx : ℕ
  pub avail_idx : ℕ

-- `&blk->status[i]` and `&blk->ops[i]`, with `gs_virtio_blk` at `base`: 128 status bytes and 128 pointers
-- stand before the requests.
abbrev pub status_addr : (base i : ℕ) → ℕ
status_addr base i = base + i

abbrev pub ops_addr : (base i : ℕ) → ℕ
ops_addr base i = base + 1152 + 16 * i

-- The index `blk->avail_idx++ % blk->vr.size`, `n` increments later.
abbrev pub index : Blk → (n : ℕ) → ℕ
index blk n = u16 (blk.avail_idx + n) % blk.vr.size

abbrev pub data_flags : BlkBuf → ℕ
data_flags b = bit_or (if b.is_write == 0 then desc_f_write else 0) desc_f_next

-- `virtio_pci_blk_rw` from the three indices on, up to the notification; `b` stands at `ptr`.
unfoldable pub enqueue : (base ptr : ℕ) → Blk → BlkBuf → Blk
enqueue base ptr blk b =
    let idx0 = index blk 0 in
    let idx1 = index blk 1 in
    let idx2 = index blk 2 in
    let req : Request = record {
      type = if b.is_write == 0 then blk_t_in else blk_t_out;
      reserved = 0;
      sector = b.addr / sector_size;
    } in
    let desc1 = fill_desc blk.desc idx0 (ops_addr base idx0) 16 desc_f_next idx1 in
    let desc2 = fill_desc desc1 idx1 b.data_addr b.data_len (data_flags b) idx2 in
    let desc3 = fill_desc desc2 idx2 (status_addr base idx0) 1 desc_f_write 0 in
    record blk {
      status = set blk.status idx0 0xff;
      info = set blk.info idx0 ptr;
      ops = set blk.ops idx0 req;
      desc = desc3;
      avail = add_avail blk.avail idx0 blk.vr.size;
      avail_idx = u16 (blk.avail_idx + 3);
    }

-- The check at the head of `virtio_pci_blk_rw`: the sum is one of `u32`s.
unfoldable pub fits : Blk → BlkBuf → Bool
fits blk b = not (ltb blk.capacity (u32 (b.addr + b.data_len) / sector_size))

-- `virtio_pci_blk_rw` up to the wait; `none` where the length is refused.
unfoldable pub submit : (base ptr : ℕ) → Blk → BlkBuf → Option (Blk × BlkBuf)
submit base ptr blk b =
    if fits blk b then some (enqueue base ptr blk b, record b { flag = 1 }) else none

-- What a `struct blk_buf *` points to; `none` where nothing can be there, NULL first of all.
abbrev pub Heap : Type 0
Heap = ℕ → Option BlkBuf

abbrev pub update : Heap → (ptr : ℕ) → BlkBuf → Heap
update h ptr b p = if p == ptr then some b else h p

-- `fault` is an access outside an array or through a pointer to nothing.
pub data Run {ℓ} (A : Type ℓ) : Type ℓ where
  ok : A → Run A
  fault out_of_fuel : Run A

-- One round of the loop of `virtio_pci_blk_intr`, but for the fence at its end, which is in `blk_intr`.
unfoldable pub retire : Blk → Heap → Run (Blk × Heap)
retire blk h = elim (get_elem? blk.used.ring (blk.used_idx % blk_qsize)) [
  | none ↦ fault
  | some e ↦ elim (get_elem? blk.status e.id) [
    | none ↦ fault
    | some _ ↦ elim (get_elem? blk.info e.id) [
      | none ↦ fault
      | some ptr ↦ elim (h ptr) [
        | none ↦ fault
        | some b ↦
            ok (
              record blk { used_idx = u16 (blk.used_idx + 1) },
              update h ptr (record b { flag = 0 }),
            )
      ]
    ]
  ]
]

-- `virtio_pci_blk_cfg_isr`, which only prints.
abbrev pub cfg_isr : (irq : ℕ) → ℤ
cfg_isr irq = pos 0

-- The loop of `virtio_pci_blk_intr`, but for its fences.
unfoldable pub intr : (fuel : ℕ) → Blk → Heap → Run (Blk × Heap)
intr zero blk h = out_of_fuel
intr (suc n) blk h =
    let go : Run (Blk × Heap) = elim (retire blk h) [
      | ok (blk', h') ↦ intr n blk' h'
      | fault ↦ fault
      | out_of_fuel ↦ out_of_fuel
    ] in
    if blk.used_idx == blk.used.idx then ok (blk, h) else go

-- How many rounds the loop makes.
unfoldable pub retired : (fuel : ℕ) → Blk → Heap → ℕ
retired zero blk h = 0
retired (suc n) blk h =
    let go : ℕ = elim (retire blk h) [
      | ok (blk', h') ↦ suc (retired n blk' h')
      | fault ↦ 0
      | out_of_fuel ↦ 0
    ] in
    if blk.used_idx == blk.used.idx then 0 else go

-- `virtio_pci_blk_rw` up to the wait, with the fences of `virtio_vring_fill_desc`, one for each of the three
-- descriptors, and of `virtio_vring_add_avail`, two, and the notification of the device. The log has no
-- accesses to memory, so the fences stand in it one after the other.
unfoldable pub begin_rw :
    {D : Type 0} (bus : Bus D) (hw : Hw) (base ptr : ℕ)
    → Blk
    → BlkBuf
    → Io D (Option (Blk × BlkBuf))
begin_rw bus hw base ptr blk b = elim (submit base ptr blk b) [
  | none ↦ pure none
  | some out ↦ do
    fences (3 * fill_desc_fences + add_avail_fences)
    set_queue_notify bus hw 0
    pure (some out)
]

-- `virtio_pci_blk_intr`: the read of the ISR register clears the interrupt at the device. Behind the fence
-- before the loop there is one at the end of each round.
unfoldable pub blk_intr :
    {D : Type 0} (bus : Bus D) (hw : Hw) (fuel : ℕ) → Blk → Heap → Io D (Run (Blk × Heap))
blk_intr bus hw fuel blk h = do
  _ ← clear_isr bus hw
  barrier
  fences (retired fuel blk h)
  pure (intr fuel blk h)

-- The end of `virtio_pci_blk_rw`, when the flag is found cleared.
unfoldable pub release : (head : ℕ) → Blk → Blk
release head blk = record blk { info = set blk.info head 0 }
