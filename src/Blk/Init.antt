-- ===== src/Blk/Init.antt =====
-- The feature bits that the disk driver accepts.
use virtio_pci_simple_driver.Prelude.{ℕ, ◌<◌, ◌≡◌, refl, arith, List, [], ◌∷◌, if◌then◌else◌}
use virtio_pci_simple_driver.Prelude.Bits.{bit}
use virtio_pci_simple_driver.Startup.Masks.{is_cleared, bit-clear_feature_more}
use virtio_pci_simple_driver.Blk.{mask}

abbrev pub not_taken : List ℕ
not_taken = 28 ∷ 29 ∷ 27 ∷ 12 ∷ 11 ∷ 9 ∷ 7 ∷ 5 ∷ []

-- Of the 64 feature bits that a disk offers, the driver accepts every one but RO (5), SCSI (7), FLUSH
-- (9), CONFIG_WCE (11), MQ (12), ANY_LAYOUT (27), INDIRECT_DESC (28) and EVENT_IDX (29): the bits that it does not know,
-- RING_PACKED (34) for one, are accepted with the rest.
pub bit-blk_mask :
    (k f : ℕ) → k < 64 → bit k (mask f) ≡ (if is_cleared not_taken k then 0 else bit k f)
unfolding mask
bit-blk_mask k f h =
    bit-clear_feature_more 28 (29 ∷ 27 ∷ 12 ∷ 11 ∷ 9 ∷ 7 ∷ 5 ∷ []) k _ f (omega arith) h (
      bit-clear_feature_more 29 (27 ∷ 12 ∷ 11 ∷ 9 ∷ 7 ∷ 5 ∷ []) k _ f (omega arith) h (
        bit-clear_feature_more 27 (12 ∷ 11 ∷ 9 ∷ 7 ∷ 5 ∷ []) k _ f (omega arith) h (
          bit-clear_feature_more 12 (11 ∷ 9 ∷ 7 ∷ 5 ∷ []) k _ f (omega arith) h (
            bit-clear_feature_more 11 (9 ∷ 7 ∷ 5 ∷ []) k _ f (omega arith) h (
              bit-clear_feature_more 9 (7 ∷ 5 ∷ []) k _ f (omega arith) h (
                bit-clear_feature_more 7 (5 ∷ []) k _ f (omega arith) h
                  (bit-clear_feature_more 5 ([]) k _ f (omega arith) h (refl))))))))
