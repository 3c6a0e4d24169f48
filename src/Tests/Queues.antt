-- ===== src/Tests/Queues.antt =====
-- The rings.
use virtio_pci_simple_driver.Prelude.{
  ◌≡◌, refl, arith, [], ◌∷◌, ◌++◌, if◌then◌else◌, ltb, pos, negsuc,
}
use virtio_pci_simple_driver.Ring.{Vring, Avail, vq_align, vring_init, vring_size, add_avail}
use virtio_pci_simple_driver.Ring.Layout.{
  IsLaidOut, vring_init-IsLaidOut, vring_init_returns, vring_init_unaligned,
}
use virtio_pci_simple_driver.Ring.Pending.{pending, waiting, pending-add_avail}

abbrev no_ring : Vring
no_ring = record { size = 0; qid = 0; desc = 0; avail = 0; used = 0; notify_addr = 0 }

vring_init-IsLaidOut_example :
    IsLaidOut (vring_init no_ring 0x8000_0000 12288 128 0).1 0x8000_0000 12288 128 0
unfolding vring_init vring_size vq_align
vring_init-IsLaidOut_example =
    vring_init-IsLaidOut no_ring 0x8000_0000 12288 128 0 refl (omega arith) (omega arith) refl

vring_init_returns_example :
    (vring_init no_ring 0x8000_0000 12288 128 0).0
    ≡ (if ltb 12288 (vring_size 128) then negsuc 0 else pos 0)
vring_init_returns_example =
    vring_init_returns no_ring 0x8000_0000 12288 128 0 refl (omega arith) (omega arith)
      (omega arith)

vring_init_unaligned_example :
    (vring_init no_ring 0x8000_0010 16384 8 0).1.avail
    ≡ (vring_init no_ring 0x8000_0010 16384 8 0).1.desc
unfolding vring_size vq_align
vring_init_unaligned_example =
    vring_init_unaligned no_ring 0x8000_0010 16384 8 0 (omega arith) (omega arith) (omega arith)
      (omega arith)

-- Two heads wait, and the index is about to wrap.
abbrev busy_ring : Avail
busy_ring = record { flags = 0; idx = 65535; ring = 0 ∷ 0 ∷ 0 ∷ 0 ∷ 0 ∷ 5 ∷ 6 ∷ 0 ∷ [] }

pending-add_avail_example :
    pending (add_avail busy_ring 7 8) 8 65533 ≡ pending busy_ring 8 65533 ++ (7 ∷ [])
unfolding waiting
pending-add_avail_example =
    pending-add_avail 8 refl busy_ring 65533 7 (omega arith) (omega arith) (omega arith)
      (omega arith) (omega arith) (omega arith)
