-- ===== src/VirtioPci.antt =====
-- src/driver/virtio/virtio-pci.h and virtio-pci.c, without `virtio_pci_read_caps`, which is in Caps:
-- the common configuration structure of a device and the operations on its registers.
pub mod Features
pub mod Queues
use virtio_pci_simple_driver.Prelude.{
  ℕ, zero, suc, ◌+◌, ◌*◌, ◌/◌, ◌%◌, ◌^◌, bit_and, bit_or, ◌==◌, if◌then◌else◌, u32, u64,
}
use virtio_pci_simple_driver.Bus.{Bus, Io, pure, ◌>>=◌, ◌>>◌, barrier, read, write}
use virtio_pci_simple_driver.Ring.{Vring, vring_size}

-- `virtio_pci_hw_t`, its pointers as addresses; `msix`, which no code uses, is left out.
pub record Hw : Type 0 where
  pub bar : ℕ
  pub use_msix : ℕ
  pub notify_off_multiplier : ℕ
  pub common_cfg : ℕ
  pub isr_cfg : ℕ
  pub device_cfg : ℕ
  pub notify_cfg : ℕ

-- The fields of `struct virtio_pci_common_cfg`.
pub data Field : Type 0 where
  device_feature_select device_feature driver_feature_select driver_feature : Field
  config_msix_vector num_queues device_status config_generation : Field
  queue_select queue_size queue_msix_vector queue_enable queue_notify_off : Field
  queue_desc queue_driver queue_device queue_notify_data queue_reset : Field

-- Their sizes in bytes.
abbrev pub size : Field → ℕ
size device_feature_select = 4
size device_feature = 4
size driver_feature_select = 4
size driver_feature = 4
size device_status = 1
size config_generation = 1
size queue_desc = 8
size queue_driver = 8
size queue_device = 8
size _ = 2

-- Their offsets; the structure is packed.
abbrev pub offset : Field → ℕ
offset device_feature_select = 0
offset device_feature = 4
offset driver_feature_select = 8
offset driver_feature = 12
offset config_msix_vector = 16
offset num_queues = 18
offset device_status = 20
offset config_generation = 21
offset queue_select = 22
offset queue_size = 24
offset queue_msix_vector = 26
offset queue_enable = 28
offset queue_notify_off = 30
offset queue_desc = 32
offset queue_driver = 40
offset queue_device = 48
offset queue_notify_data = 56
offset queue_reset = 58

-- `&cfg->field`
abbrev pub reg : Hw → Field → ℕ
reg hw f = hw.common_cfg + offset f

module _ {D : Type 0} (bus : Bus D) (hw : Hw) where
  unfoldable pub get_device_features : Io D ℕ
  get_device_features = do
    write bus 32 (reg hw device_feature_select) 0
    f1 ← read bus 32 (reg hw device_feature)
    write bus 32 (reg hw device_feature_select) 1
    f2 ← read bus 32 (reg hw device_feature)
    pure (bit_or (u64 (f2 * 2 ^ 32)) f1)

  unfoldable pub get_driver_features : Io D ℕ
  get_driver_features = do
    write bus 32 (reg hw driver_feature_select) 0
    f1 ← read bus 32 (reg hw driver_feature)
    write bus 32 (reg hw driver_feature_select) 1
    f2 ← read bus 32 (reg hw driver_feature)
    pure (bit_or (u64 (f2 * 2 ^ 32)) f1)

  unfoldable pub set_driver_features : (features : ℕ) → Io D (Unit {0})
  set_driver_features features = do
    write bus 32 (reg hw driver_feature_select) 0
    barrier
    write bus 32 (reg hw driver_feature) (bit_and features 0xffff_ffff)
    write bus 32 (reg hw driver_feature_select) 1
    barrier
    write bus 32 (reg hw driver_feature) (features / 2 ^ 32)

  -- What every operation on one queue begins with.
  unfoldable pub select : (qid : ℕ) → Io D (Unit {0})
  select qid = do write bus 16 (reg hw queue_select) qid; barrier

  unfoldable pub get_queue_size : (qid : ℕ) → Io D ℕ
  unfolding select
  get_queue_size qid = do select qid; read bus 16 (reg hw queue_size)

  unfoldable pub set_queue_size : (qid qsize : ℕ) → Io D (Unit {0})
  unfolding select
  set_queue_size qid qsize = do select qid; write bus 16 (reg hw queue_size) qsize

  unfoldable pub set_queue_addr : (qid : ℕ) → Vring → Io D (Unit {0})
  unfolding select
  set_queue_addr qid vr = do
    select qid
    write bus 64 (reg hw queue_desc) vr.desc
    write bus 64 (reg hw queue_driver) vr.avail
    write bus 64 (reg hw queue_device) vr.used

  unfoldable pub get_queue_notify_off : (qid : ℕ) → Io D ℕ
  unfolding select
  get_queue_notify_off qid = do select qid; read bus 16 (reg hw queue_notify_off)

  -- The product is one of `u32`s; the sum, of `u64`s.
  unfoldable pub get_queue_notify_addr : (qid : ℕ) → Io D ℕ
  unfolding select
  get_queue_notify_addr qid = do
    select qid
    notify_off ← read bus 16 (reg hw queue_notify_off)
    pure (u64 (hw.notify_cfg + u32 (notify_off * hw.notify_off_multiplier)))

  unfoldable pub set_queue_notify : (qid : ℕ) → Io D (Unit {0})
  unfolding get_queue_notify_addr
  set_queue_notify qid = do pt ← get_queue_notify_addr qid; write bus 32 pt 1

  unfoldable pub set_queue_enable : (qid : ℕ) → Io D (Unit {0})
  unfolding select
  set_queue_enable qid = do select qid; write bus 16 (reg hw queue_enable) 1

  unfoldable pub get_queue_enable : (qid : ℕ) → Io D ℕ
  unfolding select
  get_queue_enable qid = do select qid; read bus 16 (reg hw queue_enable)

  unfoldable pub disable_queue_msix : (qid : ℕ) → Io D (Unit {0})
  unfolding select
  disable_queue_msix qid = do select qid; write bus 16 (reg hw queue_msix_vector) 0xffff

  unfoldable pub set_queue_msix : (qid msix_vector : ℕ) → Io D (Unit {0})
  unfolding select
  set_queue_msix qid msix_vector = do
    select qid
    write bus 16 (reg hw queue_msix_vector) msix_vector

  unfoldable pub disable_config_msix : Io D (Unit {0})
  disable_config_msix = do write bus 16 (reg hw config_msix_vector) 0xffff; barrier

  unfoldable pub set_config_msix : (msix_vector : ℕ) → Io D (Unit {0})
  set_config_msix msix_vector = do write bus 16 (reg hw config_msix_vector) msix_vector; barrier

  -- The read clears the register.
  unfoldable pub clear_isr : Io D ℕ
  clear_isr = read bus 32 hw.isr_cfg

  unfoldable pub get_status : Io D ℕ
  get_status = read bus 8 (reg hw device_status)

  unfoldable pub set_status : (status : ℕ) → Io D (Unit {0})
  set_status status = write bus 8 (reg hw device_status) status

  -- The word loop of `virtio_pci_print_common_cfg`, with `n` words left.
  unfoldable pub print_words : (n i : ℕ) → Io D (Unit {0})
  print_words zero i = pure tt
  print_words (suc n) i = do _ ← read bus 32 (hw.common_cfg + 4 * i); print_words n (i + 1)

  -- Its queue loop, with `n` queues left.
  unfoldable pub print_queues : (n i : ℕ) → Io D (Unit {0})
  unfolding get_queue_size get_queue_notify_off
  print_queues zero i = pure tt
  print_queues (suc n) i = do
    qsize ← get_queue_size i
    (if qsize == 0 then pure tt else get_queue_notify_off i >>= λ _. pure tt)
    print_queues n (i + 1)

  -- `virtio_pci_print_common_cfg`: 60 bytes make 15 words.
  unfoldable pub print_common_cfg : Io D (Unit {0})
  unfolding print_words print_queues
  print_common_cfg = do print_words 15 0; print_queues 8 0

  -- `virtio_pci_setup_queue`; its result is always 0. Addresses go through `u32` variables, and
  -- `queue_select` is written 32 bits wide.
  unfoldable pub setup_queue : Vring → Io D Vring
  setup_queue vr = do
    write bus 32 (reg hw queue_select) vr.qid
    write bus 64 (reg hw queue_desc) (u32 vr.desc)
    write bus 64 (reg hw queue_driver) (u32 vr.avail)
    write bus 64 (reg hw queue_device) (u32 vr.used)
    notify_off ← read bus 16 (reg hw queue_notify_off)
    write bus 16 (reg hw queue_enable) 1
    pure (record vr { notify_addr = hw.notify_cfg + u32 (notify_off * hw.notify_off_multiplier) })
