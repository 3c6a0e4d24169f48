-- ===== src/Rng.antt =====
-- src/driver/virtio/virtio-rng.h and virtio-pci-rng.c: the entropy source, polled.
pub mod Polling
pub mod System
pub mod Ready
use virtio_pci_simple_driver.Prelude.{
  ℕ, zero, suc, ltb, ◌-◌, ◌+◌, ◌*◌, ◌%◌, ◌^◌, ◌==◌, if◌then◌else◌, u16, ℤ, pos, negsuc, Option,
  none, some, List, get_elem?,
}
use virtio_pci_simple_driver.Bus.{Bus, Io, fences, pure, ◌>>=◌, ◌>>◌}
use virtio_pci_simple_driver.Pci.{device_probe}
use virtio_pci_simple_driver.Caps.{read_caps}
use virtio_pci_simple_driver.Ring.{
  Vring, Desc, Avail, Used, UsedElem, desc_f_write, fill_desc, add_avail, fill_desc_fences,
  add_avail_fences,
}
use virtio_pci_simple_driver.VirtioPci.{Hw, print_common_cfg, set_queue_notify}
use virtio_pci_simple_driver.Startup.{f_event_idx, f_indirect_desc, clear_feature, Queue, start}

-- The features that the driver does not take: EVENT_IDX and INDIRECT_DESC.
unfoldable pub mask : ℕ → ℕ
mask features = clear_feature f_indirect_desc (clear_feature f_event_idx features)

-- `qsize` in `virtio_pci_rng_init`, and the size of `gs_rng_buf`.
abbrev pub rng_qsize : ℕ
rng_qsize = 8

abbrev pub rng_buf_len : ℕ
rng_buf_len = 12288

-- `gs_virtio_rng_hw`, `vr` and `qsize` of `gs_virtio_rng`, and the static offset of `pci_alloc_mmio`.
pub record Statics : Type 0 where
  pub hw : Hw
  pub queue : Queue
  pub s_off : ℕ

module _ {D : Type 0} (bus : Bus D) where
  -- `virtio_pci_rng_init` once the device is found. The result of `virtio_pci_read_caps` is not
  -- looked at. `none` means that the fuel of the capability walk ran out.
  unfoldable pub init_at : (fuel buf pci_base : ℕ) → Statics → Io D (Option (ℤ × Statics))
  init_at fuel buf pci_base g = do
    caps ← read_caps bus fuel pci_base g.hw
    elim caps [
      | none ↦ pure none
      | some (_, hw) ↦ do
        print_common_cfg bus hw
        (r, q) ← start bus hw mask rng_qsize buf rng_buf_len g.queue
        pure (some (r, record g { hw = hw; queue = q }))
    ]

  -- `virtio_pci_rng_init`, with `gs_rng_buf` at `buf`.
  unfoldable pub init : (fuel buf : ℕ) → Statics → Io D (Option (ℤ × Statics))
  init fuel buf g = do
    (pci_base, s_off) ← device_probe bus 0x1af4 0x1044 g.s_off
    let g' = record g { s_off = s_off }
    if pci_base == 0 then pure (some (negsuc 0, g')) else init_at fuel buf pci_base g'

-- `struct virtio_rng`, with the memory that `vr` points to: the descriptor table and the two rings.
pub record Rng : Type 0 where
  pub vr : Vring
  pub desc : List Desc
  pub avail : Avail
  pub used : Used
  pub used_idx : ℕ
  pub avail_idx : ℕ

-- `virtio_pci_rng_read` up to the notification: one descriptor for the buffer, then the ring.
unfoldable pub submit : Rng → (buf len : ℕ) → Rng
submit rng buf len =
    let idx = rng.avail_idx % rng.vr.size in
    record rng {
      avail_idx = u16 (rng.avail_idx + 1);
      desc = fill_desc rng.desc idx buf len desc_f_write 0;
      avail = add_avail rng.avail idx rng.vr.size;
    }

-- The test of the polling loop: the device has not moved on yet.
unfoldable pub is_waiting : Rng → Used → Option Rng
is_waiting rng used = if rng.used_idx == used.idx then none else some (record rng { used = used })

-- `virtio_pci_rng_read` behind the loop: the length that the device gave, still a `u32`, and the state. `none` is a read
-- past the used ring.
unfoldable pub finish : Rng → Option (ℕ × Rng)
finish rng = elim (get_elem? rng.used.ring (rng.used_idx % rng.vr.size)) [
  | none ↦ none
  | some e ↦ some (e.len, record rng { used_idx = u16 (rng.used_idx + 1) })
]

-- The polling loop over what the successive reads of the used ring find; `none` where they end first.
unfoldable pub poll : Rng → List Used → Option (ℕ × Rng)
poll rng List.[] = none
poll rng (List.◌∷◌ used seen) = elim (is_waiting rng used) [
  | none ↦ poll rng seen
  | some rng' ↦ finish rng'
]

-- A `u32` as an `int`.
unfoldable pub to_int : ℕ → ℤ
to_int x = if ltb x (2 ^ 31) then pos x else negsuc (2 ^ 32 - 1 - x)

-- `virtio_pci_rng_read`: `seen` is what the successive reads of the used ring find. `none` where it ends
-- before the device has moved on, or on a read past the ring. `len` is an `int` that is not negative. The fences are one of
-- `virtio_vring_fill_desc` and two of `virtio_vring_add_avail`.
unfoldable pub rng_read :
    {D : Type 0} (bus : Bus D) (hw : Hw) → Rng → (buf len : ℕ) → List Used → Io D (Option (ℤ × Rng))
rng_read bus hw rng buf len seen = do
  fences (fill_desc_fences + add_avail_fences)
  set_queue_notify bus hw 0
  pure (elim (poll (submit rng buf len) seen) [
    | none ↦ none
    | some (rlen, rng') ↦ some (to_int rlen, rng')
  ])

-- `virtio_pci_rng_cfg_isr` and `virtio_pci_rng_intr`, which only print.
abbrev pub cfg_isr : (irq : ℕ) → ℤ
cfg_isr irq = pos 0

abbrev pub intr : (irq : ℕ) → ℤ
intr irq = pos 0
