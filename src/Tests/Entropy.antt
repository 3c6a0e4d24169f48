-- ===== src/Tests/Entropy.antt =====
-- The entropy driver on a bus with its device, from its initialisation on.
use virtio_pci_simple_driver.Prelude.{
  ◌*◌, ◌%◌, ◌^◌, ◌≡◌, ℕ, inl, inr, refl, arith, some, pos, [], ◌∷◌, ◌++◌, replicate, ltb, ◌==◌,
  ==_ne, ℕ_discrete, if◌then◌else◌,
}
use virtio_pci_simple_driver.Prelude.Memory.{Bytes, copy}
use virtio_pci_simple_driver.Bus.{Bus, World, fences}
use virtio_pci_simple_driver.Pci.{pci_addr, device_probe, config_read8}
use virtio_pci_simple_driver.Pci.Probe.{HasIds, device_probe-LastOf}
use virtio_pci_simple_driver.Caps.{read_caps, walk}
use virtio_pci_simple_driver.VirtioPci.{
  print_common_cfg, print_words, print_queues, set_status, get_status, get_device_features,
  set_driver_features, get_queue_enable, get_queue_size, select, set_queue_size,
  disable_config_msix, disable_queue_msix, set_queue_addr, set_queue_enable, set_queue_notify,
}
use virtio_pci_simple_driver.Startup.{start, handshake, go_live, prepare_queue}
use virtio_pci_simple_driver.Ring.{fill_desc, add_avail, vring_init, vring_size, vq_align}
use virtio_pci_simple_driver.Ring.Layout.{IsLaidOut}
use virtio_pci_simple_driver.Rng.{Statics, init, init_at, rng_read, submit, is_waiting, finish}
use virtio_pci_simple_driver.Rng.Ready.{at_rest, at_rest-IsStart, init-replay_reads, read_returns}
use virtio_pci_simple_driver.Rng.System.{
  idle, Machine, begin, look, deliver, take, Steps, stay, then_step, IsStart,
}
use virtio_pci_simple_driver.Rng.System.Stage.{replay, AreServed}
use virtio_pci_simple_driver.Tests.Startup.{hw, willing, fresh, no_queue}

abbrev noise : Bytes
noise = λ i. i * 7 % 256

abbrev memory : Bytes
memory = λ a. 0

-- The entropy device is the second device of bus 0 and has no capabilities.
abbrev plugged : Bus (Unit {0})
plugged = record {
  answer = λ w a d.
      if a == pci_addr (2 ^ 15)
      then (0x1044_1af4, d)
      else if ltb a 0x4000_0000
      then (0, d)
      else willing.answer w a d;
  accept = λ w a v d. d;
}

abbrev ids : ℕ → ℕ
ids k = if k == 1 then 0x1044_1af4 else 0

plugged-HasIds : HasIds plugged ids
plugged-HasIds = record { reads = λ k d h. ground arith }

abbrev statics : Statics
statics = record { hw = hw; queue = no_queue; s_off = 0 }

probed : (device_probe plugged 0x1af4 0x1044 0 fresh).0.0 ≡ 2 ^ 15
probed = elim (device_probe-LastOf plugged ids 0x1af4 0x1044 0 fresh plugged-HasIds (omega arith)) [
  | inl (e, none_there) ↦ absurd (none_there 1 (omega arith) refl)
  | inr (k, _, at, same, _) ↦ elim (ℕ_discrete k 1) [
    | yes one ↦ rw (at, one) refl
    | no ne ↦ let missing = rw (==_ne _ _ ne) at same in cc
  ]
]

-- What the initialisation leaves, with the static offset of the allocator behind the BARs.
abbrev kept : (s_off : ℕ) → Statics
kept s_off = record {
  hw = hw;
  queue = record {
    vr = record no_queue.vr {
      size = 8;
      desc = 0x8000_0000;
      avail = 0x8000_1000;
      used = 0x8000_2000;
    };
    qsize = 256;
  };
  s_off = s_off;
}

init_at-ready :
    (s_off : ℕ) (σ : World (Unit {0}))
    → (init_at plugged 3 0x8000_0000 (2 ^ 15) (record statics { s_off = s_off }) σ).0
      ≡ some (pos 0, kept s_off)
unfolding init_at read_caps walk config_read8 print_common_cfg print_words print_queues start
    handshake go_live prepare_queue set_status get_status get_device_features set_driver_features
    get_queue_enable get_queue_size select set_queue_size disable_config_msix disable_queue_msix
    set_queue_addr set_queue_enable vring_init vring_size vq_align
init_at-ready s_off σ = refl

abbrev now : Statics
now = kept (device_probe plugged 0x1af4 0x1044 0 fresh).0.1

init-ready : (init plugged 3 0x8000_0000 statics fresh).0 ≡ some (pos 0, now)
unfolding init
init-ready = rw probed (init_at-ready _ _)

at_rest-IsStart_example :
    IsLaidOut now.queue.vr 0x8000_0000 12288 8 0 × IsStart (at_rest now memory)
at_rest-IsStart_example =
    at_rest-IsStart plugged 3 0x8000_0000 refl (omega arith) statics now memory fresh init-ready

-- Asked for 32 bytes, the device gives 20, after the loop has looked once in vain.
unfoldable once : (m : Machine) × Steps noise (at_rest now memory) m
unfolding submit fill_desc add_avail is_waiting finish
once = (
  _,
  then_step
      (then_step
        (then_step (then_step stay (begin 0x9000 32 refl (omega arith) (omega arith) (omega arith)))
          (look refl refl))
        (deliver {head = 0} 20 (omega arith) refl refl refl (omega arith) (omega arith)))
      (take refl refl refl),
)

init-replay_reads_example :
    ((once.0.mem, once.0.drawn) ≡ replay noise memory once.0.reads) × AreServed once.0.reads
unfolding once
init-replay_reads_example =
    init-replay_reads plugged 3 0x8000_0000 refl (omega arith) statics now fresh noise memory
      init-ready once.0 once.1 refl

read_returns_example :
    (t : Machine) × Steps noise once.0 t
    × (t.phase ≡ idle)
    × (t.reads ≡ record { buf = 0xa000; len = 8; got = 5 } ∷ once.0.reads)
    × (t.mem ≡ copy 5 noise once.0.drawn once.0.mem 0xa000)
    × (rng_read plugged hw once.0.rng 0xa000 8
          (replicate 3 once.0.rng.used ++ (t.rng.used ∷ []))
          fresh
        ≡ (some (pos 5, t.rng), (set_queue_notify plugged hw 0 (fences 3 fresh).1).1))
unfolding once
read_returns_example =
    read_returns plugged 3 0x8000_0000 refl (omega arith) statics now fresh noise memory init-ready
      once.0 once.1 refl 0xa000 8 5 3 (omega arith) (omega arith) (omega arith) (omega arith) fresh
