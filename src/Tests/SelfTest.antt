-- ===== src/Tests/SelfTest.antt =====
-- The self-test on a disk that makes the transfers, and on one that does nothing.
use virtio_pci_simple_driver.Prelude.{pos}
use virtio_pci_simple_driver.Demo.{Services}
use virtio_pci_simple_driver.Demo.Disk.{rw_at}
use virtio_pci_simple_driver.Blk.Transfer.{Store}

-- The buffer at 0x7000. The entropy device returns as many bytes as it was asked for, all 0.
abbrev stub : Services Store
stub = record {
  plt_virt_init = λ s. s;
  rng_init = λ s. (pos 0, s);
  rng_read = λ len buf s. ((pos len, buf), s);
  blk_init = λ s. (pos 0, s);
  blk_rw = rw_at 0x7000;
  shutdown = λ code s. s;
}

abbrev nothing : Store
nothing = record { disk = λ a. 0; mem = λ a. 0 }

-- Nothing comes from the disk, and nothing goes there.
abbrev broken : Services Store
broken = record stub { blk_rw = λ is_write addr len buf s. (buf, s) }
