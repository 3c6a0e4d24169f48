-- ===== src/VirtioPci/Queues.antt =====
-- Operations on the registers of a queue: what they write.
use virtio_pci_simple_driver.Bus.{Bus}
