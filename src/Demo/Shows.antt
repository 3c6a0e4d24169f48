-- ===== src/Demo/Shows.antt =====
-- What the self-test leaves on the disk, and what `main` shows.
use virtio_pci_simple_driver.Prelude.{
  ◌==◌, ==_iff, ℕ, zero, suc, ◌+◌, ◌-◌, ◌*◌, ◌%◌, ◌≤◌, ◌<◌, ◌≡◌, refl, ap, sym, ◌∙◌, arith, List,
  [], ◌∷◌, length, get_or, replicate, ◌&&◌, leb, ltb, true, if◌then◌else◌, u8, u32, pos, dec_lt,
}
use virtio_pci_simple_driver.Demo.{
  data_len, memset, fill, matches, take, Outcome, passed, rounds, blk_test, blk_test2,
}
use virtio_pci_simple_driver.Demo.Disk.{load_bytes, IsDisk, at_next, load_bytes-all}
use virtio_pci_simple_driver.Prelude.Memory.{Bytes, covered, uncovered}

matches-fill : (i : ℕ) (xs : List ℕ) → matches i (fill i xs) ≡ true
unfolding matches fill
matches-fill i [] = refl
matches-fill i (x ∷ xs) =
    let same : (u8 i == u8 i) ≡ true = (==_iff (u8 i) (u8 i)).1 refl in
    rw (same, matches-fill (i + 1) xs)

length-memset : (s : List ℕ) (c n : ℕ) → length (memset s c n) ≡ length s
unfolding memset
length-memset s c zero = refl
length-memset [] c (suc n) = refl
length-memset (x ∷ s) c (suc n) = ap (λ l. suc l) (length-memset s c n)

length-fill : (i : ℕ) (s : List ℕ) → length (fill i s) ≡ length s
unfolding fill
length-fill i [] = refl
length-fill i (x ∷ s) = ap (λ l. suc l) (length-fill (i + 1) s)

get_or-fill : (i : ℕ) (s : List ℕ) (j : ℕ) → j < length s → get_or (fill i s) j 0 ≡ u8 (i + j)
unfolding fill
get_or-fill i [] j h = elim h [ ]
get_or-fill i (x ∷ s) zero h = let e : i + 0 ≡ i = omega arith in rw e refl
get_or-fill i (x ∷ s) (suc j) h =
    let e : i + 1 + j ≡ i + suc j = omega arith in get_or-fill (i + 1) s j (omega arith) ∙ rw e refl

-- The buffer that the test writes.
record IsPattern (buf : List ℕ) : Type 0 where
  whole : length buf ≡ 1024
  same : matches 0 buf ≡ true
  byte : (j : ℕ) → j < 1024 → get_or buf j 0 ≡ u8 j

fill-IsPattern : (buf : List ℕ) → length buf ≡ 1024 → IsPattern (fill 0 buf)
fill-IsPattern buf len = record {
  whole = length-fill 0 buf ∙ len;
  same = matches-fill 0 buf;
  byte = λ j less. get_or-fill 0 buf j (omega (arith, len)) ∙ ap u8 (omega arith);
}

-- The bytes shown, on a disk with the pattern.
take-load_bytes :
    (n : ℕ) (d : Bytes) (a : ℕ) (buf : List ℕ)
    → n ≤ length buf
    → ((j : ℕ) → j < n → d (a + j) ≡ u8 (a + j))
    → take n (load_bytes n d a buf) ≡ fill a (replicate n 0)
unfolding take fill
take-load_bytes zero d a buf len h = refl
take-load_bytes (suc n) d a [] len h = absurd (omega (arith, len))
take-load_bytes (suc n) d a (x ∷ buf) len h =
    let here : d a ≡ u8 a = ap d (omega arith) ∙ h 0 (omega arith) ∙ ap u8 (omega arith) in
    let rest =
      take-load_bytes n d (a + 1) buf (omega arith)
        (λ j less. at_next d a j ∙ h (suc j) (omega arith) ∙ ap u8 (omega arith)) in
    rw (here, rest) refl

module _ {S : Type 0} {rw_disk : (is_write addr len : ℕ) → List ℕ → S → List ℕ × S} {cap : ℕ}
    (is_disk : IsDisk rw_disk cap) where
  -- One round of the test: what it reads back, and the bytes then on the disk.
  round-reads :
      (a : ℕ) (buf : List ℕ) (s : S)
      → a % 512 ≡ 0
      → a + 1024 ≤ cap
      → length buf ≡ 1024
      → let w = rw_disk 1 a data_len buf s in
        let r = rw_disk 0 a data_len (memset w.0 0 data_len) w.1 in
        (r.0 ≡ buf)
        × ((b : ℕ)
            → is_disk.disk r.1 b
              ≡ (if leb a b && ltb b (a + 1024) then get_or buf (b - a) 0 else is_disk.disk s b))
  round-reads a buf s whole inside len =
      let fits : 1024 ≤ length buf = omega (arith, len) in
      let w = rw_disk 1 a data_len buf s in
      let kept : w.0 ≡ buf = is_disk.write_buf a 1024 buf s whole refl inside fits in
      let cleared : length (memset w.0 0 data_len) ≡ length buf =
        length-memset w.0 0 data_len ∙ ap length kept in
      let fits' : 1024 ≤ length (memset w.0 0 data_len) = omega (arith, len, cleared) in
      let there = λ (b : ℕ). is_disk.write_disk a 1024 buf s whole refl inside fits b in
      (
        is_disk.read_buf a 1024 (memset w.0 0 data_len) w.1 whole refl inside fits'
            ∙ ap (λ n. load_bytes n (is_disk.disk w.1) a (memset w.0 0 data_len)) (sym len)
            ∙ load_bytes-all buf (memset w.0 0 data_len) (is_disk.disk w.1) a cleared (λ j less.
              there (a + j)
              ∙ covered a (a + 1024) (a + j) _ (is_disk.disk s (a + j)) (omega arith)
                  (omega (arith, len))
              ∙ ap (λ i. get_or buf i 0) (omega arith)),
        λ b.
            ap (λ d. d b)
              (is_disk.read_disk a 1024 (memset w.0 0 data_len) w.1 whole refl inside fits')
            ∙ there b,
      )

  -- What a series of rounds leaves on the disk, and in the buffer.
  abbrev Written : (k n : ℕ) → List ℕ → S → Outcome × (List ℕ × S) → Type 0
  Written k n buf s (out, (buf', t)) =
      (out ≡ passed)
      × (buf' ≡ buf)
      × ((a : ℕ) → a < n * 1024 → is_disk.disk t a ≡ is_disk.disk s a)
      × ((a : ℕ) → n * 1024 ≤ a → a < (n + k) * 1024 → is_disk.disk t a ≡ u8 a)

  rounds-Written :
      (k n : ℕ) (buf : List ℕ) (s : S)
      → IsPattern buf
      → n + k ≤ 16
      → 16384 ≤ cap
      → Written k n buf s (rounds rw_disk k n buf s)
  unfolding rounds
  rounds-Written zero n buf s pat bound room =
      (refl, refl, λ a less. refl, λ a least less. absurd (omega arith))
  rounds-Written (suc k) n buf s pat bound room =
      let at_n : u32 (n * data_len) ≡ n * 1024 = omega arith in
      let (back, disk_then) = round-reads (n * 1024) buf s (omega arith) (omega arith) pat.whole in
      let w = rw_disk 1 (n * 1024) data_len buf s in
      let r = rw_disk 0 (n * 1024) data_len (memset w.0 0 data_len) w.1 in
      let (out, kept, below, above) = rounds-Written k (n + 1) buf r.1 pat (omega arith) room in
      rw (at_n, back, pat.same)
        (
          out,
          kept,
          λ a less.
              below a (omega arith)
              ∙ disk_then a
              ∙ uncovered (n * 1024) (n * 1024 + 1024) a _ (is_disk.disk s a) less,
          λ a least less. elim (dec_lt a ((n + 1) * 1024)) [
            | yes here ↦
                below a here
                ∙ disk_then a
                ∙ covered (n * 1024) (n * 1024 + 1024) a _ (is_disk.disk s a) least (omega arith)
                ∙ pat.byte (a - n * 1024) (omega arith)
                ∙ omega arith
            | no later ↦ above a (omega arith) (omega arith)
          ],
        )

  -- Both tests of the disk, one behind the other.
  pub tests-show :
      16384 ≤ cap
      → (read_buf : List ℕ) (s : S) → length read_buf ≡ 1024
      → let (out, (buf, t)) = blk_test rw_disk (pos 0) read_buf s in
        let (shown, u) = blk_test2 rw_disk buf t in
        (out ≡ passed)
        × (shown ≡ fill 0 (replicate 512 0))
        × ((a : ℕ) → a < 16384 → is_disk.disk u a ≡ u8 a)
  unfolding blk_test blk_test2
  tests-show room read_buf s len =
      let pat = fill-IsPattern read_buf len in
      let (out, kept, _, on_disk) =
        rounds-Written 16 0 (fill 0 read_buf) s pat (omega arith) room in
      let t = rounds rw_disk 16 0 (fill 0 read_buf) s in
      let cleared : length (memset t.1.0 0 512) ≡ 1024 =
        length-memset t.1.0 0 512 ∙ ap length kept ∙ pat.whole in
      let fits : 512 ≤ length (memset t.1.0 0 512) = omega (arith, cleared) in
      (
        out,
        ap (take 512)
              (is_disk.read_buf 0 512 (memset t.1.0 0 512) t.1.1 refl refl (omega arith) fits)
            ∙ take-load_bytes 512 (is_disk.disk t.1.1) 0 (memset t.1.0 0 512)
                (omega (arith, cleared)) (λ j less. on_disk (0 + j) (omega arith) (omega arith)),
        λ a less.
            ap (λ d. d a)
              (is_disk.read_disk 0 512 (memset t.1.0 0 512) t.1.1 refl refl (omega arith) fits)
            ∙ on_disk a (omega arith) (omega arith),
      )
