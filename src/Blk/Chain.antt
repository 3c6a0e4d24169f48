-- ===== src/Blk/Chain.antt =====
-- The descriptor chain of a request, as the device walks it.
use virtio_pci_simple_driver.Prelude.{
  ◌+◌, ℕ, zero, suc, ◌/◌, ◌%◌, ◌<◌, ◌≡◌, ◌≢◌, refl, ap, sym, ◌∙◌, arith, true, false, Option, none,
  some, List, [], ◌∷◌, ◌==◌, if◌then◌else◌, u16, u32, u64, set, get_elem?, get_elem?-set_self,
  get_elem?-set_ne, length, length-set, Bool-cases, inl, inr,
}
use virtio_pci_simple_driver.Ring.{Desc, add_avail, fill_desc}
use virtio_pci_simple_driver.Blk.{Blk, BlkBuf, index, enqueue, ops_addr, status_addr, data_flags}

-- The descriptors from entry `i` on, as long as they have the flag NEXT; `none` where the chain leaves
-- the table or is longer than the fuel.
unfoldable pub chain : (fuel : ℕ) → List Desc → (i : ℕ) → Option (List Desc)
chain zero table i = none
chain (suc n) table i = elim (get_elem? table i) [
  | none ↦ none
  | some d ↦
      if d.flags % 2 == 0
      then some (d ∷ [])
      else elim (chain n table d.next) [ none ↦ none | some ds ↦ some (d ∷ ds) ]
]

-- The arrays have their declared sizes, and the queue has 128 entries.
pub record IsSized (blk : Blk) : Type 0 where
  pub queue : blk.vr.size ≡ 128
  pub status_len : length blk.status ≡ 128
  pub info_len : length blk.info ≡ 128
  pub ops_len : length blk.ops ≡ 128
  pub desc_len : length blk.desc ≡ 128
  pub avail_len : length blk.avail.ring ≡ 128
  pub used_len : length blk.used.ring ≡ 128

-- One step along a chain, and its end.
chain-more :
    (t : List Desc) (i j : ℕ) (d : Desc) (ds : List Desc) (n : ℕ)
    → get_elem? t i ≡ some d
    → (d.flags % 2 == 0) ≡ false
    → d.next ≡ j
    → chain n t j ≡ some ds
    → chain (suc n) t i ≡ some (d ∷ ds)
unfolding chain
chain-more t i j d ds n at_i more next rest =
    let rest' : chain n t d.next ≡ some ds = ap (chain n t) next ∙ rest in
    rw (chain, at_i, more, rest') refl

chain-last :
    (t : List Desc) (i : ℕ) (d : Desc) (n : ℕ)
    → get_elem? t i ≡ some d
    → (d.flags % 2 == 0) ≡ true
    → chain (suc n) t i ≡ some (d ∷ [])
unfolding chain
chain-last t i d n at_i last = rw (chain, at_i, last) refl

module _ (t : List Desc) (i j k : ℕ) (a b c : Desc) where
  abbrev three : List Desc
  three = set (set (set t i a) j b) k c

  -- Three entries that are written, each linked to the next, make a chain of three.
  chain-three :
      i < length t
      → j < length t
      → k < length t
      → i ≢ j
      → i ≢ k
      → j ≢ k
      → (a.flags % 2 == 0) ≡ false
      → a.next ≡ j
      → (b.flags % 2 == 0) ≡ false
      → b.next ≡ k
      → (c.flags % 2 == 0) ≡ true
      → (n : ℕ) → chain (suc (suc (suc n))) three i ≡ some (a ∷ b ∷ c ∷ [])
  chain-three pi pj pk ij ik jk a_more a_next b_more b_next c_last n =
      chain-more three i j a (b ∷ c ∷ []) (suc (suc n)) at_i a_more a_next (
        chain-more three j k b (c ∷ []) (suc n) at_j b_more b_next
          (chain-last three k c n at_k c_last))
    where
      at_i : get_elem? three i ≡ some a
      at_i =
          get_elem?-set_ne (set (set t i a) j b) k i c (λ e. ik (sym e))
          ∙ get_elem?-set_ne (set t i a) j i b (λ e. ij (sym e))
          ∙ get_elem?-set_self t i a pi

      at_j : get_elem? three j ≡ some b
      at_j =
          get_elem?-set_ne (set (set t i a) j b) k j c (λ e. jk (sym e))
          ∙ get_elem?-set_self (set t i a) j b (omega (arith, length-set t i a))

      at_k : get_elem? three k ≡ some c
      at_k =
          get_elem?-set_self (set (set t i a) j b) k c
            (omega (arith, length-set (set t i a) j b, length-set t i a))

-- The flags of the data descriptor: NEXT, and WRITE for the device where the disk is read.
data_flags-eq : (b : BlkBuf) → u16 (data_flags b) ≡ (if b.is_write == 0 then 3 else 1)
data_flags-eq b = elim (Bool-cases (b.is_write == 0)) [ inl e ↦ rw e | inr e ↦ rw e ]

module _ (base ptr : ℕ) (blk : Blk) (b : BlkBuf) (sized : IsSized blk) where
  pub index_lt : (n : ℕ) → index blk n < 128
  index_lt n = rw sized.queue (omega arith)

  pub index_fits : (n : ℕ) → u16 (index blk n) ≡ index blk n
  index_fits n = omega (arith, index_lt n)

  index_ne : (m n : ℕ) → m < 3 → n < 3 → m < n → index blk m ≢ index blk n
  index_ne m n lt lt' less = rw sized.queue (omega arith)

  -- The three descriptors of a request.
  abbrev pub header_desc : Desc
  header_desc = record {
    addr = u64 (ops_addr base (index blk 0));
    len = 16;
    flags = 1;
    next = index blk 1;
  }

  abbrev pub data_desc : Desc
  data_desc = record {
    addr = u64 b.data_addr;
    len = u32 b.data_len;
    flags = if b.is_write == 0 then 3 else 1;
    next = index blk 2;
  }

  abbrev pub status_desc : Desc
  status_desc = record { addr = u64 (status_addr base (index blk 0)); len = 1; flags = 2; next = 0 }

  -- On a queue of 128 entries, what the device finds behind the head that `virtio_pci_blk_rw`
  -- publishes, also where the indices go round the table or wrap: the request header, the
  -- buffer, readable for a write to the disk and writable for a read, and the status byte, in
  -- three different entries; the header has the request's type and first sector, and the status
  -- byte is not yet 0. The head is the entry of the available ring at the index that was the next, and the index
  -- has moved on by one.
  pub enqueue-chain :
      (n : ℕ)
      → let blk' = enqueue base ptr blk b in
        (chain (suc (suc (suc n))) blk'.desc (index blk 0)
          ≡ some (header_desc ∷ data_desc ∷ status_desc ∷ []))
        × (get_elem? blk'.ops (index blk 0)
            ≡ some (record {
              type = if b.is_write == 0 then 0 else 1;
              reserved = 0;
              sector = b.addr / 512;
            }))
        × (get_elem? blk'.status (index blk 0) ≡ some 0xff)
        × (get_elem? blk'.avail.ring (blk.avail.idx % 128) ≡ some (index blk 0))
        × (blk'.avail.idx ≡ u16 (blk.avail.idx + 1))
  unfolding enqueue fill_desc add_avail
  enqueue-chain n = (
    rw (index_fits 1, index_fits 2, data_flags-eq b)
        (chain-three blk.desc (index blk 0) (index blk 1) (index blk 2) header_desc data_desc
          status_desc (omega (arith, sized.desc_len, index_lt 0))
          (omega (arith, sized.desc_len, index_lt 1)) (omega (arith, sized.desc_len, index_lt 2))
          (index_ne 0 1 (omega arith) (omega arith) (omega arith))
          (index_ne 0 2 (omega arith) (omega arith) (omega arith))
          (index_ne 1 2 (omega arith) (omega arith) (omega arith)) refl refl
          (elim (Bool-cases (b.is_write == 0)) [ inl e ↦ rw e refl | inr e ↦ rw e refl ]) refl refl
          n),
    get_elem?-set_self blk.ops (index blk 0) _ (omega (arith, sized.ops_len, index_lt 0)),
    get_elem?-set_self blk.status (index blk 0) 0xff (omega (arith, sized.status_len, index_lt 0)),
    rw (sized.queue, wraps)
        (get_elem?-set_self blk.avail.ring (blk.avail.idx % 128) _
          (omega (arith, sized.avail_len))),
    refl,
  )
    where
      wraps : u16 (u16 (blk.avail_idx + 0) % 128) ≡ u16 (blk.avail_idx + 0) % 128
      wraps = omega arith
