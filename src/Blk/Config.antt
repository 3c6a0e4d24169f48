-- ===== src/Blk/Config.antt =====
-- src/driver/virtio/virtio-blk.h: the constants, and `struct virtio_blk_cfg`.
use virtio_pci_simple_driver.Prelude.{ℕ}

abbrev pub blk_qsize : ℕ
blk_qsize = 128

abbrev pub sector_size : ℕ
sector_size = 512

-- The feature bits of a disk that the driver clears.
abbrev pub blk_f_ro : ℕ
blk_f_ro = 5

abbrev pub blk_f_scsi : ℕ
blk_f_scsi = 7

abbrev pub blk_f_flush : ℕ
blk_f_flush = 9

abbrev pub blk_f_config_wce : ℕ
blk_f_config_wce = 11

abbrev pub blk_f_mq : ℕ
blk_f_mq = 12

-- `struct virtio_blk_cfg`, up to the last field that is read.
pub data CfgField : Type 0 where
  capacity size_max seg_max cylinders heads sectors blk_size : CfgField

-- The sizes of the fields in bytes, and their offsets; the structure is packed.
abbrev pub cfg_size : CfgField → ℕ
cfg_size capacity = 8
cfg_size size_max = 4
cfg_size seg_max = 4
cfg_size cylinders = 2
cfg_size heads = 1
cfg_size sectors = 1
cfg_size blk_size = 4

abbrev pub cfg_offset : CfgField → ℕ
cfg_offset capacity = 0
cfg_offset size_max = 8
cfg_offset seg_max = 12
cfg_offset cylinders = 16
cfg_offset heads = 18
cfg_offset sectors = 19
cfg_offset blk_size = 20

-- `type` of `struct virtio_blk_req`.
abbrev pub blk_t_in : ℕ
blk_t_in = 0

abbrev pub blk_t_out : ℕ
blk_t_out = 1
