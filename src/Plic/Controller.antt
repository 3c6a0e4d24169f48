-- ===== src/Plic/Controller.antt =====
-- What the code relies on in the interrupt controller, as its specification has it.
use virtio_pci_simple_driver.Prelude.{
  ℕ, ◌+◌, ◌*◌, ◌/◌, ◌%◌, ◌^◌, ◌≤◌, ◌<◌, ◌≡◌, ◌≢◌, ◌⊎◌, Bool, true, false, ◌&&◌, ◌==◌, if◌then◌else◌,
}
use virtio_pci_simple_driver.Prelude.Bits.{bit}
use virtio_pci_simple_driver.Bus.{Bus}
use virtio_pci_simple_driver.Plic.{claim_addr, enable_base, plic0_addr}

-- Addresses behind which there is another device: the controller has 0x600000 bytes.
abbrev pub IsOutside : ℕ → Type 0
IsOutside a = (a < plic0_addr) ⊎ (plic0_addr + 0x60_0000 ≤ a)

-- Which sources wait with a priority other than 0, which are enabled for the hart, and which have been claimed
-- and not yet completed.
pub record IsPlic {D : Type 0} (bus : Bus D) : Type 0 where
  pub pending : ℕ → D → Bool
  pub enabled : ℕ → D → Bool
  pub active : ℕ → D → Bool
  -- The sources that there are on this board, the console's and the disk's among them. Source 0 is none, and its enable bit
  -- and those of other sources that there are not are 0, whatever is written to them.
  pub real : ℕ → Bool
  pub none_zero : real 0 ≡ false
  pub real_console : real 10 ≡ true
  pub real_disk : real 33 ≡ true
  pub enabled_real : (i : ℕ) (d : D) → (real i && enabled i d) ≡ enabled i d
  -- A claim gives the number of a source that waits and is enabled, or 0 where there is none.
  pub number : (d : D) → (bus.answer 32 claim_addr d).0 < 1024
  pub claim_none :
      (d : D)
      → (bus.answer 32 claim_addr d).0 ≡ 0
      → (i : ℕ) → i ≢ 0
      → (pending i d && enabled i d) ≡ false
  pub claim_some :
      (d : D)
      → (bus.answer 32 claim_addr d).0 ≢ 0
      → let r = (bus.answer 32 claim_addr d).0 in (pending r d ≡ true) × (enabled r d ≡ true)
  pub claim_active :
      (i : ℕ) (d : D)
      → let (r, d') = bus.answer 32 claim_addr d in
        active i d' ≡ (if r == 0 then active i d else if i == r then true else active i d)
  -- The completion of a source that is not enabled is ignored.
  pub complete_active :
      (r i : ℕ) (d : D)
      → active i (bus.accept 32 claim_addr r d)
        ≡ (if (i == r) && enabled r d then false else active i d)
  pub claim_enabled : (i : ℕ) (d : D) → enabled i (bus.answer 32 claim_addr d).1 ≡ enabled i d
  pub complete_enabled : (r i : ℕ) (d : D) → enabled i (bus.accept 32 claim_addr r d) ≡ enabled i d
  -- The enable words, with a bit for each source.
  pub word_reads :
      (i : ℕ) (d : D)
      → i < 1024
      → ((bit (i % 32) ((bus.answer 32 (enable_base + 4 * (i / 32)) d).0 % 2 ^ 32) == 1)
          ≡ enabled i d)
  pub word_keeps :
      (j i : ℕ) (d : D) → j < 32 → enabled i (bus.answer 32 (enable_base + 4 * j) d).1 ≡ enabled i d
  pub word_writes :
      (j v i : ℕ) (d : D)
      → j < 32
      → i < 1024
      → v < 2 ^ 32
      → enabled i (bus.accept 32 (enable_base + 4 * j) v d)
        ≡ (if i / 32 == j then real i && (bit (i % 32) v == 1) else enabled i d)
  -- Priorities, the threshold and the other devices are apart from these.
  pub priority_keeps :
      (k v i : ℕ) (d : D)
      → k < 1024
      → enabled i (bus.accept 32 (plic0_addr + k * 4) v d) ≡ enabled i d
  pub threshold_keeps :
      (v i : ℕ) (d : D) → enabled i (bus.accept 32 (plic0_addr + 0x20_1000) v d) ≡ enabled i d
  pub load_outside :
      (w a i : ℕ) (d : D)
      → IsOutside a
      → (enabled i (bus.answer w a d).1 ≡ enabled i d)
        × (active i (bus.answer w a d).1 ≡ active i d)
  pub store_outside :
      (w a v i : ℕ) (d : D)
      → IsOutside a
      → (enabled i (bus.accept w a v d) ≡ enabled i d)
        × (active i (bus.accept w a v d) ≡ active i d)
