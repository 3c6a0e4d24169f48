-- ===== src/Rng/Ready.antt =====
-- The entropy driver from the first return of `virtio_pci_rng_init` with 0 on.
use virtio_pci_simple_driver.Prelude.{
  ltb, true, ℕ, ◌%◌, ◌^◌, ◌<◌, ◌≡◌, refl, ap, arith, subst, [], ◌∷◌, ◌++◌, ◌≤◌, Option, none, some,
  Option-cases, ℤ, pos, replicate, ◌==◌, Bool-cases, inl, inr,
}
use virtio_pci_simple_driver.Prelude.Memory.{Bytes, copy}
use virtio_pci_simple_driver.Bus.{Bus, World, Io, fences, pure, ◌>>=◌, ◌>>◌}
use virtio_pci_simple_driver.Pci.{device_probe}
use virtio_pci_simple_driver.Caps.{read_caps}
use virtio_pci_simple_driver.Ring.Layout.{IsLaidOut}
use virtio_pci_simple_driver.VirtioPci.{Hw, print_common_cfg, set_queue_notify}
use virtio_pci_simple_driver.Startup.{start}
use virtio_pci_simple_driver.Startup.Ready.{start-IsLaidOut}
use virtio_pci_simple_driver.Rng.{
  to_int, Rng, Statics, mask, rng_qsize, rng_buf_len, init, init_at, rng_read,
}
use virtio_pci_simple_driver.Rng.System.{Machine, Steps, idle, IsStart}
use virtio_pci_simple_driver.Rng.System.Reads.{rng_read_completes}
use virtio_pci_simple_driver.Rng.System.Stage.{replay, AreServed}
use virtio_pci_simple_driver.Rng.System.Stream.{idle-replay_reads}

-- `gs_virtio_rng` and `gs_rng_buf` when the program starts: C sets them to zero.
abbrev pub bss : Rng
bss = record {
  vr = record { size = 0; qid = 0; desc = 0; avail = 0; used = 0; notify_addr = 0 };
  desc = replicate 8 (record { addr = 0; len = 0; flags = 0; next = 0 });
  avail = record { flags = 0; idx = 0; ring = replicate 8 0 };
  used = record { flags = 0; idx = 0; ring = replicate 8 (record { id = 0; len = 0 }) };
  used_idx = 0;
  avail_idx = 0;
}

-- What an initialisation leaves of them: it sets the ring's parts, and resets neither the indices nor
-- what is in the buffer.
abbrev pub after_init : Rng → Statics → Rng
after_init rng g = record rng { vr = g.queue.vr }

-- The driver and its device after the first initialisation.
abbrev pub at_rest : Statics → Bytes → Machine
at_rest g mem = record {
  rng = after_init bss g;
  served = 0;
  phase = idle;
  mem = mem;
  drawn = 0;
  reads = [];
}

module _ {D : Type 0} (bus : Bus D) (fuel buf : ℕ) (page : buf % 4096 ≡ 0)
    (low : buf < 2 ^ 63) where
  -- The function behind the walk of the capabilities.
  unfoldable go_on : Statics → Option (ℤ × Hw) → Io D (Option (ℤ × Statics))
  go_on g none = pure none
  go_on g (some (_, hw)) = do
    print_common_cfg bus hw
    (r, q) ← start bus hw mask rng_qsize buf rng_buf_len g.queue
    pure (some (r, record g { hw = hw; queue = q }))

  init_at-of :
      (pci_base : ℕ) (g : Statics) (σ : World D) (caps : Option (ℤ × Hw))
      → (read_caps bus fuel pci_base g.hw σ).0 ≡ caps
      → init_at bus fuel buf pci_base g σ ≡ go_on g caps (read_caps bus fuel pci_base g.hw σ).1
  unfolding init_at go_on
  init_at-of pci_base g σ caps e = ap (λ c. go_on g c (read_caps bus fuel pci_base g.hw σ).1) e

  init_at-IsLaidOut :
      (pci_base : ℕ) (g g' : Statics) (σ : World D)
      → (init_at bus fuel buf pci_base g σ).0 ≡ some (pos 0, g')
      → IsLaidOut g'.queue.vr buf rng_buf_len rng_qsize 0
  unfolding go_on
  init_at-IsLaidOut pci_base g g' σ e = elim (Option-cases (read_caps bus fuel pci_base g.hw σ).0) [
    | inl h ↦ let never = rw (init_at-of pci_base g σ _ h) at e in cc
    | inr ((code, hw), h) ↦
        let before = (print_common_cfg bus hw (read_caps bus fuel pci_base g.hw σ).1).1 in
        let started = start bus hw mask rng_qsize buf rng_buf_len g.queue before in
        let ended = rw (init_at-of pci_base g σ _ h) at e in
        let zero : started.0.0 ≡ pos 0 = cc in
        let same : record g { hw = hw; queue = started.0.1 } ≡ g' = cc in
        subst (λ (x : Statics). IsLaidOut x.queue.vr buf rng_buf_len rng_qsize 0) same
          (start-IsLaidOut bus hw mask rng_qsize buf rng_buf_len g.queue page low (omega arith)
            before zero)
  ]

  init-IsLaidOut :
      (g g' : Statics) (σ : World D)
      → (init bus fuel buf g σ).0 ≡ some (pos 0, g')
      → IsLaidOut g'.queue.vr buf rng_buf_len rng_qsize 0
  unfolding init
  init-IsLaidOut g g' σ e =
      let probed = device_probe bus 0x1af4 0x1044 g.s_off σ in
      elim (Bool-cases (probed.0.0 == 0)) [
        | inl h ↦ let never = rw h at e in cc
        | inr h ↦
            init_at-IsLaidOut probed.0.0 (record g { s_off = probed.0.1 }) g' probed.1 (rw h at e)
      ]

  -- Where the first call of `virtio_pci_rng_init` returns 0, with `gs_rng_buf` page-aligned and below 2^63, whatever the devices
  -- answer: the queue has 8 entries and its three parts are on page boundaries inside that buffer, none reaching
  -- into the next, and the static data are such as calls of `virtio_pci_rng_read` can start from: the parts of the
  -- queue have their lengths, nothing is published, and nothing in the used ring is untaken.
  pub at_rest-IsStart :
      (g g' : Statics) (mem : Bytes) (σ : World D)
      → (init bus fuel buf g σ).0 ≡ some (pos 0, g')
      → IsLaidOut g'.queue.vr buf rng_buf_len rng_qsize 0 × IsStart (at_rest g' mem)
  at_rest-IsStart g g' mem σ e =
      let laid = init-IsLaidOut g g' σ e in
      (
        laid,
        record {
          sized = record { queue = laid.sized; desc_len = refl; avail_len = refl; used_len = refl };
          at_rest = refl;
          taken = refl;
          seen = refl;
          none_drawn = refl;
          none_read = refl;
        },
      )

  module _ (g g' : Statics) (σ : World D) (source mem : Bytes)
      (initialised : (init bus fuel buf g σ).0 ≡ some (pos 0, g')) where
    -- Refinement, from the first return of `virtio_pci_rng_init` with 0 on, with `gs_rng_buf` page-aligned and below
    -- 2^63: whenever a run of `virtio_pci_rng_read` and its device finds the driver idle, the reads that have
    -- returned have each got at least one byte and at most as many as they asked for, and memory is what it was with
    -- each buffer filled, in the order of the reads, with the next bytes of the device's source: no byte is
    -- lost, and none is given out twice.
    pub init-replay_reads :
        (n : Machine)
        → Steps source (at_rest g' mem) n
        → n.phase ≡ idle
        → ((n.mem, n.drawn) ≡ replay source mem n.reads) × AreServed n.reads
    init-replay_reads n ss rests =
        idle-replay_reads (at_rest-IsStart g g' mem σ initialised).1 ss rests

    -- From the first return of `virtio_pci_rng_init` with 0 on, with `gs_rng_buf` page-aligned and below 2^63: in every idle
    -- state that a run reaches, a call of `virtio_pci_rng_read` can be completed. For each number of bytes from 1 up to
    -- a length that is an `int`, and a buffer at a 64-bit address, some run of the driver and its device ends with the
    -- return of the call, with that many bytes of the source in the buffer and nothing else changed in memory. Its
    -- notification is the only access to the device, and its polling loop, where it finds the used ring as it
    -- was, any number of times, and then as the device has left it, returns that number and the state of the
    -- driver in which the run ends.
    pub read_returns :
        (n : Machine)
        → Steps source (at_rest g' mem) n
        → n.phase ≡ idle
        → (to len got k : ℕ) → to < 2 ^ 64
        → 0 < got
        → got ≤ len
        → len < 2 ^ 31
        → (τ : World D)
        → (t : Machine) × Steps source n t
          × (t.phase ≡ idle)
          × (t.reads ≡ record { buf = to; len = len; got = got } ∷ n.reads)
          × (t.mem ≡ copy got source n.drawn n.mem to)
          × (rng_read bus g'.hw n.rng to len (replicate k n.rng.used ++ (t.rng.used ∷ [])) τ
              ≡ (some (pos got, t.rng), (set_queue_notify bus g'.hw 0 (fences 3 τ).1).1))
    unfolding rng_read to_int
    read_returns n ss rests to len got k wide more fits short τ =
        let (t, run, at_end, reads, memory, loop) =
          rng_read_completes to len got k (at_rest-IsStart g g' mem σ initialised).1 ss rests wide
            more fits (omega (arith, short)) in
        let plain : ltb got (2 ^ 31) ≡ true = ground (arith, fits, short) in
        (t, run, at_end, reads, memory, rw (loop, plain) refl)
