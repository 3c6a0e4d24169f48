-- ===== src/Startup.antt =====
-- The part of `virtio_pci_blk_init` (src/driver/virtio/virtio-pci-blk.c) and of `virtio_pci_rng_init`
-- (virtio-pci-rng.c) that is the same in both: the numbered steps 1 to 8 on the device's registers. The
-- two differ in the feature bits that they clear, in the queue size and in the buffer.
pub mod Masks
pub mod Ready
pub mod Stores
pub mod Typed
use virtio_pci_simple_driver.Prelude.{
  ℕ, zero, suc, ◌+◌, ◌-◌, ◌^◌, bit_and, bit_or, Bool, true, false, ◌==◌, ltb, if◌then◌else◌, ℤ, pos,
  negsuc,
}
use virtio_pci_simple_driver.Bus.{Bus, Io, pure, ◌>>=◌, ◌>>◌}
use virtio_pci_simple_driver.Ring.{Vring, vring_init}
use virtio_pci_simple_driver.VirtioPci.{
  Hw, set_status, get_status, get_device_features, set_driver_features, get_queue_enable,
  get_queue_size, set_queue_size, disable_config_msix, disable_queue_msix, set_queue_addr,
  set_queue_enable,
}

-- src/driver/virtio/virtio.h
abbrev pub stat_acknowledge : ℕ
stat_acknowledge = 1

abbrev pub stat_driver : ℕ
stat_driver = 2

abbrev pub stat_driver_ok : ℕ
stat_driver_ok = 4

abbrev pub stat_features_ok : ℕ
stat_features_ok = 8

-- The feature bits that the drivers clear, those of every device.
abbrev pub f_any_layout : ℕ
f_any_layout = 27

abbrev pub f_indirect_desc : ℕ
f_indirect_desc = 28

abbrev pub f_event_idx : ℕ
f_event_idx = 29

-- `features &= ~(1 << n)`: the `int` is sign-extended, for n below 31.
unfoldable pub clear_feature : (n features : ℕ) → ℕ
clear_feature n features = bit_and features (2 ^ 64 - 1 - 2 ^ n)

-- What the two drivers keep of their queue: `vr` and `qsize`.
pub record Queue : Type 0 where
  pub vr : Vring
  pub qsize : ℕ

abbrev pub is_zero : ℤ → Bool
is_zero (pos zero) = true
is_zero _ = false

module _ {D : Type 0} (bus : Bus D) (hw : Hw) where
  -- Steps 1 to 6, up to the status that is read back. `mask` clears the unsupported features.
  unfoldable pub handshake : (mask : ℕ → ℕ) → Io D ℕ
  handshake mask = do
    set_status bus hw 0
    let status = bit_or 0 stat_acknowledge
    set_status bus hw status
    let status = bit_or status stat_driver
    set_status bus hw status
    features ← get_device_features bus hw
    set_driver_features bus hw (mask features)
    let status = bit_or status stat_features_ok
    set_status bus hw status
    get_status bus hw

  -- Step 7 after `virtio_vring_init` has returned 0, and step 8. `max` is the size that was read.
  unfoldable pub go_live : (status qsize : ℕ) → Queue → Io D (ℤ × Queue)
  go_live status qsize q = do
    set_queue_size bus hw 0 qsize
    disable_config_msix bus hw
    disable_queue_msix bus hw 0
    set_queue_addr bus hw 0 q.vr
    set_queue_enable bus hw 0
    let status = bit_or status stat_driver_ok
    set_status bus hw status
    pure (pos 0, q)

  -- Step 7 from the check of the maximum queue size on.
  unfoldable pub prepare_queue : (status qsize buf buf_len : ℕ) → Queue → Io D (ℤ × Queue)
  prepare_queue status qsize buf buf_len q = do
    max ← get_queue_size bus hw 0
    let (r, vr) = vring_init q.vr buf buf_len qsize 0
    let q' = record q { vr = vr; qsize = max }
    let live = go_live status qsize q'
    if max == 0
        then pure (negsuc 3, q)
        else if ltb max qsize
        then pure (negsuc 4, q)
        else if is_zero r
        then live
        else pure (r, q')

  -- Steps 1 to 8. The pair is what the function returns and the queue.
  unfoldable pub start : (mask : ℕ → ℕ) (qsize buf buf_len : ℕ) → Queue → Io D (ℤ × Queue)
  start mask qsize buf buf_len q = do
    status ← handshake mask
    if bit_and status stat_features_ok == 0 then pure (negsuc 1, q) else (do
      enabled ← get_queue_enable bus hw 0
      if enabled == 0 then prepare_queue status qsize buf buf_len q else pure (negsuc 2, q))
