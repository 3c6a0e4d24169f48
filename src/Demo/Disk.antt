-- ===== src/Demo/Disk.antt =====
-- What the self-test needs of a disk, and that the transfers of Blk.Transfer provide it.
use virtio_pci_simple_driver.Prelude.{
  ℕ, zero, suc, ◌+◌, ◌-◌, ◌%◌, ◌≤◌, ◌<◌, ◌≡◌, refl, ap, sym, ◌∙◌, arith, List, [], ◌∷◌, length,
  get_or, ◌&&◌, dec_lt, leb, ltb, true, false, if◌then◌else◌,
}
use virtio_pci_simple_driver.Blk.{BlkBuf}
use virtio_pci_simple_driver.Blk.Transfer.{Store, transfer}
use virtio_pci_simple_driver.Prelude.Memory.{Bytes, copy, covered, past_range, covered_by}

-- `n` bytes from `a` on, put over the beginning of a buffer.
abbrev pub load_bytes : (n : ℕ) → Bytes → (a : ℕ) → List ℕ → List ℕ
load_bytes zero d a buf = buf
load_bytes (suc n) d a [] = []
load_bytes (suc n) d a (x ∷ buf) = d a ∷ load_bytes n d (a + 1) buf

-- The bytes that are on a disk of `cap` bytes behind `virtio_pci_blk_rw`, for requests of whole sectors that
-- lie on the disk and fit the buffer.
pub record IsDisk {S : Type 0} (rw : (is_write addr len : ℕ) → List ℕ → S → List ℕ × S) (cap : ℕ)
    : Type 0 where
  pub disk : S → Bytes
  pub write_buf :
      (addr len : ℕ) (buf : List ℕ) (s : S)
      → addr % 512 ≡ 0
      → len % 512 ≡ 0
      → addr + len ≤ cap
      → len ≤ length buf
      → (rw 1 addr len buf s).0 ≡ buf
  pub write_disk :
      (addr len : ℕ) (buf : List ℕ) (s : S)
      → addr % 512 ≡ 0
      → len % 512 ≡ 0
      → addr + len ≤ cap
      → len ≤ length buf
      → (b : ℕ)
      → disk (rw 1 addr len buf s).1 b
        ≡ (if leb addr b && ltb b (addr + len) then get_or buf (b - addr) 0 else disk s b)
  pub read_buf :
      (addr len : ℕ) (buf : List ℕ) (s : S)
      → addr % 512 ≡ 0
      → len % 512 ≡ 0
      → addr + len ≤ cap
      → len ≤ length buf
      → (rw 0 addr len buf s).0 ≡ load_bytes len (disk s) addr buf
  pub read_disk :
      (addr len : ℕ) (buf : List ℕ) (s : S)
      → addr % 512 ≡ 0
      → len % 512 ≡ 0
      → addr + len ≤ cap
      → len ≤ length buf
      → disk (rw 0 addr len buf s).1 ≡ disk s

at_first : (d : Bytes) (a x : ℕ) → d (a + 0) ≡ x → d a ≡ x
at_first d a x h = ap d (omega arith) ∙ h

pub at_next : (d : Bytes) (a j : ℕ) → d (a + 1 + j) ≡ d (a + suc j)
at_next d a j = ap d (omega arith)

-- A buffer that is read back as a whole.
pub load_bytes-all :
    (buf old : List ℕ) (d : Bytes) (a : ℕ)
    → length old ≡ length buf
    → ((j : ℕ) → j < length buf → d (a + j) ≡ get_or buf j 0)
    → load_bytes (length buf) d a old ≡ buf
load_bytes-all [] [] d a len h = refl
load_bytes-all [] (y ∷ old) d a len h = absurd (omega (arith, len))
load_bytes-all (x ∷ buf) [] d a len h = absurd (omega (arith, len))
load_bytes-all (x ∷ buf) (y ∷ old) d a len h =
    let here : d a ≡ x = at_first d a x (h 0 (omega arith)) in
    let rest =
      load_bytes-all buf old d (a + 1) (omega (arith, len))
        (λ j less. at_next d a j ∙ h (suc j) (omega arith)) in
    rw (here, rest) refl

length-load_bytes :
    (n : ℕ) (d : Bytes) (a : ℕ) (buf : List ℕ) → length (load_bytes n d a buf) ≡ length buf
length-load_bytes zero d a buf = refl
length-load_bytes (suc n) d a [] = refl
length-load_bytes (suc n) d a (x ∷ buf) = ap (λ l. suc l) (length-load_bytes n d (a + 1) buf)

-- A byte of a buffer behind a read.
get_or-load_bytes :
    (n : ℕ) (d : Bytes) (a : ℕ) (buf : List ℕ) (j : ℕ)
    → j < length buf
    → get_or (load_bytes n d a buf) j 0 ≡ (if ltb j n then d (a + j) else get_or buf j 0)
get_or-load_bytes zero d a buf j h = let past : ltb j 0 ≡ false = ground arith in rw past refl
get_or-load_bytes (suc n) d a [] j h = elim h [ ]
get_or-load_bytes (suc n) d a (x ∷ buf) zero h =
    let more : ltb 0 (suc n) ≡ true = ground arith in
    let first : a + 0 ≡ a = omega arith in rw (more, first) refl
get_or-load_bytes (suc n) d a (x ∷ buf) (suc j) h =
    let shifted : ltb (suc j) (suc n) ≡ ltb j n = ground arith in
    get_or-load_bytes n d (a + 1) buf j (omega arith) ∙ rw (at_next d a j, shifted) refl

-- `read_buf` at `p`.
abbrev pub with_buf : (p : ℕ) → List ℕ → Store → Store
with_buf p buf s = record s {
  mem = λ a. if leb p a && ltb a (p + length buf) then get_or buf (a - p) 0 else s.mem a;
}

-- `virtio_pci_blk_rw` as the transfer of Blk.Transfer, with `read_buf` at `p`.
unfoldable pub rw_at : (p : ℕ) → (is_write addr len : ℕ) → List ℕ → Store → List ℕ × Store
rw_at p is_write addr len buf s =
    let req : BlkBuf = record {
      addr = addr;
      data_addr = p;
      data_len = len;
      is_write = is_write;
      flag = 0;
    } in
    let t = transfer req (with_buf p buf s) in (load_bytes (length buf) t.mem p buf, t)

with_buf-byte :
    (p : ℕ) (buf : List ℕ) (s : Store) (j : ℕ)
    → j < length buf
    → (with_buf p buf s).mem (p + j) ≡ get_or buf j 0
with_buf-byte p buf s j h =
    covered p (p + length buf) (p + j) _ (s.mem (p + j)) (omega arith) (omega arith)
    ∙ ap (λ i. get_or buf i 0) (omega arith)

-- A byte of `read_buf` behind a copy into it.
copied-load_bytes :
    (p len : ℕ) (d : Bytes) (a : ℕ) (buf : List ℕ) (s : Store) (j : ℕ)
    → j < length buf
    → copy len d a (with_buf p buf s).mem p (p + j) ≡ get_or (load_bytes len d a buf) j 0
copied-load_bytes p len d a buf s j h = elim (dec_lt j len) [
  | yes here ↦
      let more : ltb j len ≡ true = ground arith in
      let at_j : a + (p + j - p) ≡ a + j = omega arith in
      covered p (p + len) (p + j) _ _ (omega arith) (omega arith)
      ∙ ap d at_j
      ∙ sym (get_or-load_bytes len d a buf j h ∙ rw more refl)
  | no past ↦
      let more : ltb j len ≡ false = ground arith in
      past_range p (p + len) (p + j) _ _ (omega arith)
      ∙ with_buf-byte p buf s j h
      ∙ sym (get_or-load_bytes len d a buf j h ∙ rw more refl)
]

-- The transfers provide what the self-test needs.
pub rw_at-IsDisk : (p disk_len : ℕ) → IsDisk (rw_at p) disk_len
unfolding rw_at transfer
rw_at-IsDisk p disk_len = record {
  disk = λ s. s.disk;
  write_buf = λ addr len buf s whole whole' inside fits.
      load_bytes-all buf buf (with_buf p buf s).mem p refl (λ j h. with_buf-byte p buf s j h);
  write_disk = λ addr len buf s whole whole' inside fits b.
      covered_by addr (addr + len) b _ _ (s.disk b)
        (λ h h'. with_buf-byte p buf s (b - addr) (omega arith));
  read_buf = λ addr len buf s whole whole' inside fits.
      ap (λ n. load_bytes n (copy len s.disk addr (with_buf p buf s).mem p) p buf)
        (sym (length-load_bytes len s.disk addr buf))
      ∙ load_bytes-all (load_bytes len s.disk addr buf) buf _ p
          (sym (length-load_bytes len s.disk addr buf))
          (λ j h.
            copied-load_bytes p len s.disk addr buf s j
              (omega (arith, length-load_bytes len s.disk addr buf)));
  read_disk = λ addr len buf s whole whole' inside fits. refl;
}
