-- ===== src/Tests/Startup.antt =====
-- The registers of a device, and its initialisation.
use virtio_pci_simple_driver.Prelude.{ℕ, Bool, ◌+◌, ◌^◌, ◌≡◌, refl, arith, [], if◌then◌else◌, ◌==◌}
use virtio_pci_simple_driver.Bus.{Bus, World}
use virtio_pci_simple_driver.VirtioPci.{
  size, queue_size, Hw, reg, driver_feature, driver_feature_select, queue_enable, queue_size,
  get_driver_features, set_driver_features,
}
use virtio_pci_simple_driver.VirtioPci.Features.{HasDriverFeatures, get-set_driver_features}
use virtio_pci_simple_driver.Startup.{Queue, clear_feature, start}
use virtio_pci_simple_driver.Startup.Typed.{Typed, start-Typed}
use virtio_pci_simple_driver.Startup.Stores.{Written, start-Written}

abbrev pub hw : Hw
hw = record {
  bar = 0;
  use_msix = 0;
  notify_off_multiplier = 4;
  common_cfg = 0x4000_0000;
  isr_cfg = 0x4000_1000;
  device_cfg = 0x4000_2000;
  notify_cfg = 0x4000_3000;
}

-- A device that agrees to everything: the status reads 11, the queue is not enabled and takes 256 entries.
abbrev pub willing : Bus (Unit {0})
willing = record {
  answer = λ w a d. (if w == 8 then 11 else if a == reg hw queue_enable then 0 else 256, d);
  accept = λ w a v d. d;
}

abbrev pub fresh : World (Unit {0})
fresh = record { dev = tt; log = [] }

abbrev pub no_queue : Queue
no_queue = record {
  vr = record { size = 0; qid = 0; desc = 0; avail = 0; used = 0; notify_addr = 0 };
  qsize = 0;
}

abbrev mask29 : ℕ → ℕ
mask29 f = clear_feature 29 f

start-Written_example :
    let (out, τ) = start willing hw mask29 8 0x8000_0000 12288 no_queue fresh in
    Written hw mask29 8 [] τ.log out
start-Written_example = start-Written hw willing mask29 8 0x8000_0000 12288 no_queue fresh

-- A device with the selected feature word and the words.
abbrev feature_words : Bus (ℕ × (ℕ → ℕ))
feature_words = record {
  answer = λ w a d. (if a == reg hw driver_feature then d.1 d.0 else 0, d);
  accept = λ w a v d.
      if a == reg hw driver_feature_select
      then (v, d.1)
      else if a == reg hw driver_feature
      then (d.0, λ k. if k == d.0 then v else d.1 k)
      else d;
}

feature_words-HasDriverFeatures : HasDriverFeatures feature_words hw
feature_words-HasDriverFeatures = record {
  selected = λ d. d.0;
  word = λ k d. d.1 k;
  selects = λ d v. refl;
  select_keeps = λ d v k. refl;
  writes = λ d v k. refl;
  reads = λ d. refl;
  read_keeps = λ d k. refl;
}

abbrev no_features : World (ℕ × (ℕ → ℕ))
no_features = record { dev = (0, λ k. 0); log = [] }

get-set_driver_features_example :
    (get_driver_features feature_words hw
      (set_driver_features feature_words hw (2 ^ 32 + 5) no_features).1).0
    ≡ 2 ^ 32 + 5
get-set_driver_features_example =
    get-set_driver_features feature_words-HasDriverFeatures (2 ^ 32 + 5) no_features (omega arith)

start-Typed_example :
    (known : Bool) × Typed hw [] known
      (start willing hw mask29 8 0x8000_0000 12288 no_queue fresh).1.log
start-Typed_example = start-Typed willing hw mask29 8 0x8000_0000 12288 no_queue fresh
