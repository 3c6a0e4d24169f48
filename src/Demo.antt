-- ===== src/Demo.antt =====
-- src/main.c: the self-test. The buffer `read_buf` is a list of bytes. What the drivers do is a parameter: an
-- operation on a state, for each function that is called.
pub mod Disk
pub mod Shows
use virtio_pci_simple_driver.Prelude.{
  ℕ, zero, suc, ◌+◌, ◌*◌, ◌/◌, List, [], ◌∷◌, map, replicate, Bool, true, false, ◌==◌,
  if◌then◌else◌, u8, u32, ℤ,
}
use virtio_pci_simple_driver.Startup.{is_zero}

abbrev pub data_len : ℕ
data_len = 1024

abbrev pub test_cnt : ℕ
test_cnt = 16

-- `memset`
unfoldable pub memset : List ℕ → (c n : ℕ) → List ℕ
memset s c zero = s
memset [] c (suc n) = []
memset (x ∷ s) c (suc n) = u8 c ∷ memset s c n

-- `read_buf[i] = i`, from `i` to the end of the buffer.
unfoldable pub fill : (i : ℕ) → List ℕ → List ℕ
fill i [] = []
fill i (x ∷ xs) = u8 i ∷ fill (i + 1) xs

-- The loop that compares, from `j` to the end of the buffer.
unfoldable pub matches : (j : ℕ) → List ℕ → Bool
matches j [] = true
matches j (x ∷ xs) = if x == u8 j then matches (j + 1) xs else false

-- What the test prints: nothing where the initialisation has failed.
pub data Outcome : Type 0 where
  skipped failed passed : Outcome

-- The first `n` bytes, which `virtio_pci_blk_test2` prints.
unfoldable pub take : (n : ℕ) → List ℕ → List ℕ
take zero s = []
take (suc n) [] = []
take (suc n) (x ∷ s) = x ∷ take n s

module _ {S : Type 0} (rw : (is_write addr len : ℕ) → List ℕ → S → List ℕ × S) where
  -- The rounds from `n` on, `k` of them, with `virtio_pci_blk_rw` and the disk behind it as `rw`: how the test
  -- ends, what is then in `read_buf`, and the state.
  unfoldable pub rounds : (k n : ℕ) → List ℕ → S → Outcome × (List ℕ × S)
  rounds zero n buf s = (passed, (buf, s))
  rounds (suc k) n buf s =
      let w = rw 1 (u32 (n * data_len)) data_len buf s in
      let r = rw 0 (u32 (n * data_len)) data_len (memset w.0 0 data_len) w.1 in
      let rest = rounds k (n + 1) r.0 r.1 in if matches 0 r.0 then rest else (failed, (r.0, r.1))

  -- `virtio_pci_blk_test`, on what `virtio_pci_blk_init` returned.
  unfoldable pub blk_test : (r : ℤ) → List ℕ → S → Outcome × (List ℕ × S)
  blk_test r buf s =
      let go = rounds test_cnt 0 (fill 0 buf) s in if is_zero r then go else (skipped, (buf, s))

  -- `virtio_pci_blk_test2`: the bytes that it prints, and the state.
  unfoldable pub blk_test2 : List ℕ → S → List ℕ × S
  blk_test2 buf s =
      let dlen = data_len / 2 in let r = rw 0 0 dlen (memset buf 0 dlen) s in (take dlen r.0, r.1)

-- The rounds of `virtio_pci_rng_test`: what each prints, the length and the four words of the buffer, which is
-- then cleared.
unfoldable pub rng_rounds :
    {S : Type 0} (rng_read : (len : ℕ) → List ℕ → S → (ℤ × List ℕ) × S)
    → (k : ℕ) → List ℕ
    → S
    → List (ℤ × List ℕ) × S
rng_rounds rng_read zero buf s = ([], s)
rng_rounds rng_read (suc k) buf s =
    let r = rng_read 32 buf s in
    let rest = rng_rounds rng_read k (map (λ x. 0) r.0.1) r.1 in (r.0 ∷ rest.0, rest.1)

-- What `main` calls.
pub record Services (S : Type 0) : Type 0 where
  pub plt_virt_init : S → S
  pub rng_init : S → ℤ × S
  pub rng_read : (len : ℕ) → List ℕ → S → (ℤ × List ℕ) × S
  pub blk_init : S → ℤ × S
  pub blk_rw : (is_write addr len : ℕ) → List ℕ → S → List ℕ × S
  pub shutdown : (exit_code : ℕ) → S → S

-- What `main` prints of its three tests.
pub record Report : Type 0 where
  pub rng_status : ℤ
  pub random : List (ℤ × List ℕ)
  pub blk_status : ℤ
  pub blk : Outcome
  pub shown : List ℕ

module _ {S : Type 0} (svc : Services S) where
  -- `virtio_pci_rng_test`, with the status that it prints.
  unfoldable pub rng_test : S → (ℤ × List (ℤ × List ℕ)) × S
  rng_test s =
      let i = svc.rng_init s in
      let rs = rng_rounds svc.rng_read 16 (replicate 4 0) i.1 in ((i.0, rs.0), rs.1)

  -- `main`
  unfoldable pub main : (read_buf : List ℕ) → S → Report × S
  main read_buf s =
      let rng = rng_test (svc.plt_virt_init s) in
      let i = svc.blk_init rng.1 in
      let t = blk_test svc.blk_rw i.0 read_buf i.1 in
      let t2 = blk_test2 svc.blk_rw t.1.0 t.1.1 in
      (
        record {
          rng_status = rng.0.0;
          random = rng.0.1;
          blk_status = i.0;
          blk = t.0;
          shown = t2.0;
        },
        svc.shutdown 0 t2.1,
      )
