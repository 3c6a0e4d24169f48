-- ===== src/Tests/Disk.antt =====
-- The disk driver on one read of two sectors.
use virtio_pci_simple_driver.Prelude.{
  u16, ◌%◌, ℕ, ◌+◌, ◌*◌, ◌^◌, ◌≡◌, refl, arith, true, some, none, [], ◌∷◌, replicate, inl,
  get_elem?, if◌then◌else◌, ◌==◌,
}
use virtio_pci_simple_driver.Prelude.Bits.{bit}
use virtio_pci_simple_driver.Ring.{Desc, fill_desc, add_avail}
use virtio_pci_simple_driver.Blk.{
  retired, Blk, BlkBuf, Heap, ok, index, enqueue, fits, submit, intr, retire, mask,
}
use virtio_pci_simple_driver.Bus.{Bus, World, load, store, fence, fenced}
use virtio_pci_simple_driver.Plic.{claim, claim_addr}
use virtio_pci_simple_driver.VirtioPci.{Hw}
use virtio_pci_simple_driver.Trap.{handle_trap}
use virtio_pci_simple_driver.Trap.Disk.{handle_trap-disk}
use virtio_pci_simple_driver.Blk.Init.{bit-blk_mask, not_taken}
use virtio_pci_simple_driver.Startup.Masks.{is_cleared}
use virtio_pci_simple_driver.Blk.Capacity.{fits_past_end}
use virtio_pci_simple_driver.Blk.Chain.{
  chain, IsSized, enqueue-chain, header_desc, data_desc, status_desc,
}
use virtio_pci_simple_driver.Blk.System.{
  System, idle, begin, serve, interrupt, IsStart, Reach, start, later,
}
use virtio_pci_simple_driver.Blk.System.Invariant.{Inv, Reach-Inv}
use virtio_pci_simple_driver.Blk.System.Progress.{intr_returns, resume_after_device}

abbrev pub zero_desc : Desc
zero_desc = record { addr = 0; len = 0; flags = 0; next = 0 }

abbrev pub disk : Blk
disk = record {
  status = replicate 128 0;
  info = replicate 128 0;
  ops = replicate 128 (record { type = 0; reserved = 0; sector = 0 });
  vr = record {
    size = 128;
    qid = 0;
    desc = 0x1000;
    avail = 0x2000;
    used = 0x3000;
    notify_addr = 0;
  };
  desc = replicate 128 zero_desc;
  avail = record { flags = 0; idx = 0; ring = replicate 128 0 };
  used = record { flags = 0; idx = 0; ring = replicate 128 (record { id = 0; len = 0 }) };
  capacity = 131072;
  used_idx = 0;
  avail_idx = 0;
}

abbrev pub request : BlkBuf
request = record { addr = 1024; data_addr = 0x9000; data_len = 1024; is_write = 0; flag = 0 }

abbrev pub boot : System
boot = record {
  blk = disk;
  heap = λ p. if p == 0x5000 then some request else none;
  served = 0;
  phase = idle;
}

pub disk-IsSized : IsSized disk
disk-IsSized = record {
  queue = refl;
  status_len = refl;
  info_len = refl;
  ops_len = refl;
  desc_len = refl;
  avail_len = refl;
  used_len = refl;
}

pub boot-IsStart : IsStart boot
boot-IsStart = record { sized = disk-IsSized; at_rest = refl; taken = refl; seen = refl }

-- The request under way, and the moment after the handler has noticed it.
unfoldable pub asked : (s : System) × Reach 0x8000 s
unfolding submit fits
asked = (_, later (start boot-IsStart) (begin {ptr = 0x5000} {b = request} refl refl))

unfoldable woken : (s : System) × Reach 0x8000 s
unfolding asked submit fits enqueue fill_desc add_avail intr retire
woken = (_, later (later asked.1 (serve {head = 0} 1024 0 (omega arith) refl)) (interrupt 0 refl))

Reach-Inv_example : Inv woken.0
Reach-Inv_example = Reach-Inv woken.1

intr_returns_example :
    (out : Blk × Heap) × (intr 2 asked.0.blk asked.0.heap ≡ ok out)
    × (out.0.used_idx ≡ out.0.used.idx)
intr_returns_example = intr_returns asked.1 0

resume_after_device_example :
    (woken.0.served ≡ woken.0.blk.avail.idx) × (woken.0.blk.used_idx ≡ woken.0.blk.used.idx)
unfolding woken asked submit fits enqueue fill_desc add_avail intr retire
resume_after_device_example =
    resume_after_device {ptr = 0x5000} {head = 0} {b = record request { flag = 0 }} woken.1 refl
      refl (omega arith)

enqueue-chain_example :
    let blk' = enqueue 0x8000 0x5000 disk request in
    (chain 3 blk'.desc (index disk 0)
      ≡ some (
          header_desc 0x8000 0x5000 disk request disk-IsSized
          ∷ data_desc 0x8000 0x5000 disk request disk-IsSized
          ∷ status_desc 0x8000 0x5000 disk request disk-IsSized
          ∷ []))
    × (get_elem? blk'.ops (index disk 0) ≡ some (record { type = 0; reserved = 0; sector = 2 }))
    × (get_elem? blk'.status (index disk 0) ≡ some 0xff)
    × (get_elem? blk'.avail.ring (disk.avail.idx % 128) ≡ some (index disk 0))
    × (blk'.avail.idx ≡ u16 (disk.avail.idx + 1))
enqueue-chain_example = enqueue-chain 0x8000 0x5000 disk request disk-IsSized 0

fits_past_end_example : fits disk (record request { addr = 131072 * 512; data_len = 511 }) ≡ true
fits_past_end_example =
    fits_past_end disk (record request { addr = 131072 * 512; data_len = 511 }) (omega arith)
      (inl (omega arith, omega arith))

bit-blk_mask_example :
    bit 34 (mask (2 ^ 34)) ≡ (if is_cleared not_taken 34 then 0 else bit 34 (2 ^ 34))
bit-blk_mask_example = bit-blk_mask 34 (2 ^ 34) (omega arith)

-- A bus on which every register reads 33.
abbrev claiming : Bus (Unit {0})
claiming = record { answer = λ w a d. (33, d); accept = λ w a v d. d }

abbrev pub quiet_hw : Hw
quiet_hw = record {
  bar = 0;
  use_msix = 0;
  notify_off_multiplier = 4;
  common_cfg = 0x4000_0000;
  isr_cfg = 0x4000_1000;
  device_cfg = 0x4000_2000;
  notify_cfg = 0x4000_3000;
}

abbrev fresh : World (Unit {0})
fresh = record { dev = tt; log = [] }

handle_trap-disk_example :
    let (out, τ) =
      handle_trap claiming quiet_hw 0x1000_0000 2
        (2 ^ 63 + 9)
        0x8000
        asked.0.blk
        asked.0.heap
        fresh in
    (blk : Blk) × (heap : Heap) × (isr : ℕ) × (out ≡ ok (0x8000, (blk, heap)))
    × (blk.used_idx ≡ blk.used.idx)
    × (τ.log
        ≡ store 32 claim_addr 33
          ∷ fenced
              (retired 2 asked.0.blk asked.0.heap)
              (fence ∷ load 32 0x4000_1000 isr ∷ load 32 claim_addr 33 ∷ []))
handle_trap-disk_example =
    handle_trap-disk claiming quiet_hw 0x1000_0000 0 0x8000 asked.0 asked.1 fresh
      (unfold claim in refl)
