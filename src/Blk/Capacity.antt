-- ===== src/Blk/Capacity.antt =====
-- The check of the length at the head of `virtio_pci_blk_rw`.
use virtio_pci_simple_driver.Prelude.{◌+◌, ◌*◌, ◌^◌, ◌<◌, ◌≤◌, ◌≡◌, ◌⊎◌, arith, true}
use virtio_pci_simple_driver.Blk.{Blk, BlkBuf, fits}

-- Otherwise a buffer can pass that ends after the capacity kept: the last sector may be a part of one, and the sum
-- of address and length is cut to 32 bits.
pub fits_past_end :
    (blk : Blk) (b : BlkBuf)
    → blk.capacity * 512 < b.addr + b.data_len
    → ((b.addr + b.data_len < blk.capacity * 512 + 512) × (b.addr + b.data_len < 2 ^ 32))
      ⊎ ((2 ^ 32 ≤ b.addr + b.data_len) × (b.addr + b.data_len ≤ 2 ^ 32 + blk.capacity * 512))
    → fits blk b ≡ true
unfolding fits
fits_past_end blk b past how = ground arith
