-- ===== src/Board/Refines.antt =====
-- The board's steps as those of Blk.Transfer.
use virtio_pci_simple_driver.Prelude.{
  ℕ, suc, ◌+◌, ◌^◌, ◌<◌, ◌≡◌, inl, inr, refl, ap, ◌∙◌, ◌≢◌, List, ◌∷◌, Option-cases, some, [], pos,
  ◌%◌,
}
use virtio_pci_simple_driver.Bus.{Bus, World}
use virtio_pci_simple_driver.VirtioPci.{Hw}
use virtio_pci_simple_driver.Blk.{Blk, BlkBuf, Heap, Statics, submit, begin_rw, init}
use virtio_pci_simple_driver.Blk.Ready.{at_rest, init-IsStart}
use virtio_pci_simple_driver.Blk.System.{System, idle, begin, interrupt, resume}
use virtio_pci_simple_driver.Blk.Transfer
use virtio_pci_simple_driver.Blk.Transfer.{
  Executes, IsSoundDisk, Event, called, returned, Store, Seen, Moves, stay, then_move, driver,
}
use virtio_pci_simple_driver.Blk.Transfer.Replay.{replay, idle-replay, write-read}
use virtio_pci_simple_driver.Trap.Returned.{Handled, handle_trap-ok}
use virtio_pci_simple_driver.Board.{
  Machine, Step, call, refused, device, trap, back, change, Steps, here, and_then,
}

-- Without the devices' state.
abbrev pub bare : {D : Type 0} → Machine D → Transfer.Machine
bare m = record { sys = m.sys; seen = m.seen }

begin_rw-submit :
    {D : Type 0} (bus : Bus D) (hw : Hw) (base ptr : ℕ) (blk : Blk) (b : BlkBuf) (σ : World D)
    (out : Blk × BlkBuf)
    → (begin_rw bus hw base ptr blk b σ).0 ≡ some out
    → submit base ptr blk b ≡ some out
unfolding begin_rw
begin_rw-submit bus hw base ptr blk b σ out e = elim (Option-cases (submit base ptr blk b)) [
  | inl e' ↦ let never = rw (begin_rw, e') at e in cc
  | inr (o, e') ↦ let same = rw (begin_rw, e') at e in e' ∙ same
]

handled-Moves :
    {exec : Executes} {base : ℕ} {l : Transfer.Machine} {sys : System} {v : Seen}
    {after : Blk × Heap} (n : ℕ)
    → Handled (suc (suc n)) sys.blk sys.heap after
    → Moves exec base l (record { sys = sys; seen = v })
    → Moves exec base l (record { sys = record sys { blk = after.0; heap = after.1 }; seen = v })
handled-Moves n (inl same) ms = rw same ms
handled-Moves n (inr ran) ms = then_move ms (driver (interrupt n ran) tt)

module _ {D : Type 0} {bus : Bus D} {hw : Hw} {uart_base : ℕ} {exec : Executes} {base : ℕ} where
  Step-Moves :
      {l : Transfer.Machine} {m n : Machine D}
      → Step bus hw uart_base exec base m n
      → Moves exec base l (bare m)
      → Moves exec base l (bare n)
  Step-Moves (call {heap} {ptr} {b} p request e) ms =
      then_move ms
        (driver (begin p (begin_rw-submit bus hw base ptr _ b _ _ (ap (λ r. r.0) e))) request)
  Step-Moves (refused ptr ph p e) ms = ms
  Step-Moves (device len ne r walked done) ms = then_move ms (Transfer.device len ne r walked done)
  Step-Moves (trap {sys} {σ} {after} n scause sepc sepc' e) ms =
      handled-Moves n
        (handle_trap-ok bus hw uart_base (suc (suc n)) sys.blk sys.heap scause sepc sepc' σ after
          (ap (λ r. r.0) e)).1
        ms
  Step-Moves (back p down) ms = then_move ms (driver (resume p down) tt)
  Step-Moves change ms = ms

  pub Steps-Moves :
      {m n : Machine D} → Steps bus hw uart_base exec base m n → Moves exec base (bare m) (bare n)
  Steps-Moves here = stay
  Steps-Moves (and_then ss s) = Step-Moves s (Steps-Moves ss)

-- The board when `virtio_pci_blk_init` has returned.
abbrev pub ready : {D : Type 0} → Statics → Heap → Store → World D → Machine D
ready g heap store σ = record {
  sys = at_rest g heap;
  seen = record { store = store; events = [] };
  world = σ;
}

module _ {D : Type 0} (bus : Bus D) (exec : Executes) (std : IsSoundDisk exec)
    (base uart_base fuel buf : ℕ) (room : base + 4096 < 2 ^ 64) (page : buf % 4096 ≡ 0)
    (low : buf < 2 ^ 63) (g g' : Statics) (σ₀ σ : World D) (heap : Heap) (store : Store)
    (initialised : (init bus fuel buf g σ₀).0 ≡ some (pos 0, g')) where
  -- From the first return of `virtio_pci_blk_init` with 0 on, with a disk without I/O errors and callers that ask for whole sectors on it, with a 32-bit length and a 64-bit buffer address: in any run of calls, the disk,
  -- traps of any cause and other changes of the devices, wherever no call is under way, the disk and the
  -- buffers are those that carrying out the accepted calls so far gives, each as a whole, in the order
  -- in which they were made (where `gs_blk_buf` is page-aligned and below 2^63, and the 4 KiB from `gs_virtio_blk` on lie
  -- below 2^64).
  pub run-replay :
      (n : Machine D)
      → Steps bus g'.hw uart_base exec base (ready g' heap store σ) n
      → n.sys.phase ≡ idle
      → n.seen.store ≡ replay n.seen.events store
  run-replay n ss at_end =
      idle-replay std room (init-IsStart bus fuel buf page low g g' heap σ₀ initialised).1 refl
        (Steps-Moves ss) at_end

  -- Round trip, from the first return of `virtio_pci_blk_init` with 0 on, with a disk without I/O errors and callers
  -- that ask for whole sectors on it, with a 32-bit length and a 64-bit buffer address: after any run of calls, the
  -- disk, traps of any cause and other changes of the devices that ends with no call under way, and whose last two
  -- accepted calls wrote a buffer to the disk and then read as many bytes back from the same address, the second
  -- buffer holds, byte for byte, what the first held after the calls before them (where `gs_blk_buf` is
  -- page-aligned and below 2^63, and the 4 KiB from `gs_virtio_blk` on lie below 2^64).
  pub write_then_read :
      (n : Machine D)
      → Steps bus g'.hw uart_base exec base (ready g' heap store σ) n
      → n.sys.phase ≡ idle
      → (bw br : BlkBuf) (es : List Event)
      → n.seen.events ≡ returned ∷ called br ∷ returned ∷ called bw ∷ es
      → bw.is_write ≢ 0
      → br.is_write ≡ 0
      → br.addr ≡ bw.addr
      → br.data_len ≡ bw.data_len
      → (i : ℕ) → i < bw.data_len
      → n.seen.store.mem (br.data_addr + i) ≡ (replay es store).mem (bw.data_addr + i)
  unfolding replay
  write_then_read n ss at_end bw br es made wr rd at_addr same_len i h =
      ap (λ (s : Store). s.mem (br.data_addr + i))
        (run-replay n ss at_end ∙ ap (λ l. replay l store) made)
      ∙ write-read bw br i (replay es store) wr rd at_addr same_len h
