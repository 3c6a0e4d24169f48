-- ===== src/Blk/Transfer/Execute.antt =====
-- The device carries out what `virtio_pci_blk_rw` has put into the queue.
use virtio_pci_simple_driver.Prelude.{
  ℕ, ◌+◌, ◌-◌, ◌*◌, ◌/◌, ◌^◌, ◌<◌, ◌≤◌, ◌%◌, ◌≡◌, refl, ap, ◌∙◌, arith, false, ltb, ◌==◌,
  Bool-cases, inl, inr, if◌then◌else◌, some, List, [], ◌∷◌, get_elem?, u64, u32,
}
use virtio_pci_simple_driver.Ring.{Desc}
use virtio_pci_simple_driver.Blk.{Blk, BlkBuf, Request, index, enqueue, ops_addr}
use virtio_pci_simple_driver.Blk.Chain.{
  chain, IsSized, enqueue-chain, index_lt, header_desc, data_desc, status_desc,
}
use virtio_pci_simple_driver.Blk.Transfer.{
  Store, transfer, header_at, move_data, Executes, IsSoundDisk, IsRequest,
}

-- The address of a header leads back to its index.
header_at-ops_addr :
    (base i : ℕ) (ops : List Request)
    → base + 4096 < 2 ^ 64
    → i < 128
    → header_at base ops (u64 (ops_addr base i)) ≡ get_elem? ops i
unfolding header_at
header_at-ops_addr base i ops room lt =
    let whole : u64 (ops_addr base i) ≡ base + 1152 + 16 * i = omega arith in
    let after : ltb (base + 1152 + 16 * i) (base + 1152) ≡ false = ground arith in
    let back : (base + 1152 + 16 * i - (base + 1152)) / 16 ≡ i = omega arith in
    rw (whole, after, back) refl

module _ (base ptr : ℕ) (blk : Blk) (b : BlkBuf) (sized : IsSized blk) where
  -- The same buffer, from the beginning of its sector.
  abbrev pub from_sector : BlkBuf
  from_sector = record b { addr = b.addr / 512 * 512 }

  abbrev pub request_chain : List Desc
  request_chain =
      header_desc base ptr blk b sized
      ∷ data_desc base ptr blk b sized
      ∷ status_desc base ptr blk b sized
      ∷ []

  move_data-transfer :
      b.data_len < 2 ^ 32
      → b.data_addr < 2 ^ 64
      → (s : Store)
      → move_data
          (record { type = if b.is_write == 0 then 0 else 1; reserved = 0; sector = b.addr / 512 })
          (data_desc base ptr blk b sized)
          s
        ≡ some (transfer from_sector s)
  unfolding move_data transfer
  move_data-transfer len_fits addr_fits s =
      let count : u32 b.data_len ≡ b.data_len = omega arith in
      let at_buf : u64 b.data_addr ≡ b.data_addr = omega arith in
      elim (Bool-cases (b.is_write == 0)) [
        | inl e ↦ rw (e, count, at_buf) refl
        | inr e ↦ rw (e, count, at_buf) refl
      ]

  -- For a queue of the driver's size whose arrays have their lengths, below 2^64: the chain that `virtio_pci_blk_rw`
  -- puts into the queue for a buffer of whole sectors, of 32-bit length and at a 64-bit address, is one that a disk
  -- without I/O errors carries out, where the sectors from that of the disk address on are on the disk, as the
  -- transfer of that buffer from the beginning of the sector in which the disk address lies: an address within a
  -- sector is rounded down.
  pub execute-from_sector :
      (exec : Executes)
      → IsSoundDisk exec
      → base + 4096 < 2 ^ 64
      → b.data_len < 2 ^ 32
      → b.data_addr < 2 ^ 64
      → b.data_len % 512 ≡ 0
      → b.addr / 512 * 512 + b.data_len ≤ exec.sectors * 512
      → (s : Store)
      → (chain 128 (enqueue base ptr blk b).desc (index blk 0) ≡ some request_chain)
        × (exec.carry_out base (enqueue base ptr blk b).ops request_chain s
            ≡ some (transfer from_sector s))
  execute-from_sector exec std room len_fits addr_fits whole on_disk s =
      let (walked, header, _, _, _) = enqueue-chain base ptr blk b sized 125 in
      let found =
        header_at-ops_addr base (index blk 0) (enqueue base ptr blk b).ops room
          (index_lt base ptr blk b sized 0) in
      (
        walked,
        std.carries_out base (enqueue base ptr blk b).ops (header_desc base ptr blk b sized)
            (data_desc base ptr blk b sized) (status_desc base ptr blk b sized) _ s _ refl refl refl
            refl (found ∙ header) (omega (arith, len_fits, whole))
            (omega (arith, len_fits, on_disk)) (move_data-transfer len_fits addr_fits s),
      )

-- What a published request is to the device: a chain that it can carry out, and that is the transfer.
pub record Loaded (exec : Executes) (base : ℕ) (blk : Blk) (head : ℕ) (b : BlkBuf) : Type 0 where
  pub descs : List Desc
  pub walked : chain 128 blk.desc head ≡ some descs
  pub does : (s : Store) → exec.carry_out base blk.ops descs s ≡ some (transfer b s)

pub enqueue-Loaded :
    (exec : Executes)
    → IsSoundDisk exec
    → (base ptr : ℕ) (blk : Blk) (b : BlkBuf) → IsSized blk
    → IsRequest exec b
    → base + 4096 < 2 ^ 64
    → Loaded exec base (enqueue base ptr blk b) (index blk 0) b
enqueue-Loaded exec std base ptr blk b sized request room = record {
  descs = request_chain base ptr blk b sized;
  walked = (enqueue-chain base ptr blk b sized 125).0;
  does = λ s.
      let whole : b.addr / 512 * 512 ≡ b.addr = omega (arith, request.at_sector) in
      (execute-from_sector base ptr blk b sized exec std room request.len_fits request.addr_fits
        request.whole_len (omega (arith, request.on_disk)) s).1
      ∙ ap (λ a. some (transfer (record b { addr = a }) s)) whole;
}
