-- ===== src/Tests/Program.antt =====
-- The program on a bus with one disk, from its initialisation on.
use virtio_pci_simple_driver.Prelude.{
  ℕ, ◌+◌, ◌-◌, ◌^◌, ◌≡◌, inl, inr, refl, arith, [], ◌∷◌, false, some, pos, ◌==◌, ==_ne, ℕ_discrete,
  if◌then◌else◌,
}
use virtio_pci_simple_driver.Bus.{World}
use virtio_pci_simple_driver.Ring.{fill_desc, add_avail, vring_init, vring_size, vq_align}
use virtio_pci_simple_driver.Ring.Layout.{IsLaidOut}
use virtio_pci_simple_driver.Pci.{device_probe, config_read8}
use virtio_pci_simple_driver.Pci.Probe.{HasIds, device_probe-LastOf}
use virtio_pci_simple_driver.Caps.{read_caps, walk}
use virtio_pci_simple_driver.VirtioPci.{
  print_common_cfg, print_words, print_queues, set_status, get_status, get_device_features,
  set_driver_features, get_queue_enable, get_queue_size, select, set_queue_size,
  disable_config_msix, disable_queue_msix, set_queue_addr, set_queue_enable,
}
use virtio_pci_simple_driver.Plic.{claim, enable}
use virtio_pci_simple_driver.Startup.{start, handshake, go_live, prepare_queue}
use virtio_pci_simple_driver.Blk.{
  Statics, fits, submit, enqueue, intr, retire, release, init, init_at, conclude, blk_cfg,
}
use virtio_pci_simple_driver.Blk.Chain.{chain}
use virtio_pci_simple_driver.Blk.System.{IsStart}
use virtio_pci_simple_driver.Blk.Ready.{at_rest, init-IsStart}
use virtio_pci_simple_driver.Blk.Transfer.{header_at, move_data, Store}
use virtio_pci_simple_driver.Blk.Transfer.Replay.{replay}
use virtio_pci_simple_driver.Board.{Machine, Steps, call, device, trap, back, here, and_then}
use virtio_pci_simple_driver.Board.Refines.{ready, run-replay, write_then_read}
use virtio_pci_simple_driver.Board.Wait.{begin_rw-some, trap_runs}
use virtio_pci_simple_driver.Tests.Transfer.{
  execute, carry, execute-IsSoundDisk, writing, writing-IsRequest, reading, reading-IsRequest,
  two_callers,
}
use virtio_pci_simple_driver.Tests.Startup.{hw, no_queue}
use virtio_pci_simple_driver.Tests.Controller.{Board, board}

-- The disk is the second device of bus 0 and has no capabilities.
-- Two bytes have arrived before anything is enabled.
abbrev pub at_reset : World Board
at_reset = record {
  dev = record { rx = 0x61 ∷ 0x62 ∷ []; tx = []; waiting = 10; held = λ i. false; reg = λ a. 0 };
  log = [];
}

abbrev ids : ℕ → ℕ
ids k = if k == 1 then 0x1042_1af4 else 0

board-HasIds : HasIds board ids
board-HasIds = record { reads = λ k d h. ground arith }

abbrev pub statics : Statics
statics = record { hw = hw; queue = no_queue; capacity = 0; s_off = 0 }

probed : (device_probe board 0x1af4 0x1042 0 at_reset).0.0 ≡ 2 ^ 15
probed = elim (device_probe-LastOf board ids 0x1af4 0x1042 0 at_reset board-HasIds (omega arith)) [
  | inl (e, none_there) ↦ absurd (none_there 1 (omega arith) refl)
  | inr (k, _, at, same, _) ↦ elim (ℕ_discrete k 1) [
    | yes one ↦ rw (at, one) refl
    | no ne ↦ let missing = rw (==_ne _ _ ne) at same in cc
  ]
]

-- What the initialisation leaves, with the static offset of the allocator behind the BARs.
abbrev pub kept : (s_off : ℕ) → Statics
kept s_off = record {
  hw = hw;
  queue = record {
    vr = record no_queue.vr {
      size = 128;
      desc = 0x8000_0000;
      avail = 0x8000_1000;
      used = 0x8000_2000;
    };
    qsize = 256;
  };
  capacity = 256;
  s_off = s_off;
}

init_at-ready :
    (s_off : ℕ) (σ : World Board)
    → (init_at board 3 0x8000_0000 (2 ^ 15) (record statics { s_off = s_off }) σ).0
      ≡ some (pos 0, kept s_off)
unfolding init_at read_caps walk config_read8 print_common_cfg print_words print_queues start
    handshake go_live prepare_queue set_status get_status get_device_features set_driver_features
    get_queue_enable get_queue_size select set_queue_size disable_config_msix disable_queue_msix
    set_queue_addr set_queue_enable vring_init vring_size vq_align conclude blk_cfg enable
init_at-ready s_off σ = refl

pub init-ready :
    (init board 3 0x8000_0000 statics at_reset).0
    ≡ some (pos 0, kept (device_probe board 0x1af4 0x1042 0 at_reset).0.1)
unfolding init
init-ready = rw probed (init_at-ready _ _)

abbrev pub now : Statics
now = kept (device_probe board 0x1af4 0x1042 0 at_reset).0.1

init-IsStart_example :
    IsLaidOut now.queue.vr 0x8000_0000 12288 128 0 × IsStart (at_rest now two_callers.heap)
init-IsStart_example =
    init-IsStart board 3 0x8000_0000 refl (omega arith) statics now two_callers.heap at_reset
      init-ready

abbrev pub empty_disk : Store
empty_disk = record { disk = λ a. 0; mem = λ a. a }

abbrev pub begun : Machine Board
begun = ready now two_callers.heap empty_disk at_reset

-- Every source is enabled, and the disk's waits.
abbrev raise : World Board → World Board
raise σ = record { dev = record σ.dev { waiting = 33; reg = λ a. 2 ^ 32 - 1 }; log = σ.log }

abbrev raised : World Board
raised = raise at_reset

-- The first caller has written, and has returned.
unfoldable wrote : (n : Machine Board) × Steps board now.hw 0x1000_0000 execute 0x8000 begun n
unfolding fits submit enqueue claim fill_desc add_avail chain execute carry header_at move_data intr
    retire release
wrote = (
  _,
  and_then
      (and_then
        (and_then
          (and_then here (
            call {ptr = 0x5000} {b = writing} refl writing-IsRequest
              (begin_rw-some board now.hw 0x1000_0000 0x8000 0x5000 _ writing _ _ refl)))
          (device {head = 0} {τ = raised} 0 (omega arith) refl refl refl))
        (trap 0 (2 ^ 63 + 9) 0 0 (trap_runs board now.hw 0x1000_0000 2 0 _ _ raised _ refl refl)))
      (back {b = record writing { flag = 0 }} refl (omega arith)),
)

-- Then the second one has read.
unfoldable wrote_and_read :
    (n : Machine Board) × Steps board now.hw 0x1000_0000 execute 0x8000 begun n
unfolding wrote fits submit enqueue claim fill_desc add_avail chain execute carry header_at
    move_data intr retire release
wrote_and_read = (
  _,
  and_then
      (and_then
        (and_then
          (and_then wrote.1 (
            call {ptr = 0x6000} {b = reading} refl reading-IsRequest
              (begin_rw-some board now.hw 0x1000_0000 0x8000 0x6000 _ reading _ _ refl)))
          (device {head = 3} {τ = raised} 0 (omega arith) refl refl refl))
        (trap 0 (2 ^ 63 + 9) 0 0 (trap_runs board now.hw 0x1000_0000 2 0 _ _ raised _ refl refl)))
      (back {b = record reading { flag = 0 }} refl (omega arith)),
)

run-replay_example : wrote_and_read.0.seen.store ≡ replay wrote_and_read.0.seen.events empty_disk
unfolding wrote_and_read
run-replay_example =
    run-replay board execute execute-IsSoundDisk 0x8000 0x1000_0000 3 0x8000_0000 (omega arith) refl
      (omega arith) statics now at_reset at_reset two_callers.heap empty_disk init-ready
      wrote_and_read.0 wrote_and_read.1 refl

write_then_read_example :
    wrote_and_read.0.seen.store.mem (0xa000 + 17) ≡ (replay [] empty_disk).mem (0x9000 + 17)
unfolding wrote_and_read wrote
write_then_read_example =
    write_then_read board execute execute-IsSoundDisk 0x8000 0x1000_0000 3 0x8000_0000 (omega arith)
      refl (omega arith) statics now at_reset at_reset two_callers.heap empty_disk init-ready
      wrote_and_read.0 wrote_and_read.1 refl writing reading [] refl (omega arith) refl refl refl 17
      (omega arith)
