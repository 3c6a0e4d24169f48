-- ===== src/Blk/Ready.antt =====
-- The disk driver's static data when `virtio_pci_blk_init` has returned 0.
use virtio_pci_simple_driver.Prelude.{
  ℕ, ◌%◌, ◌^◌, ◌<◌, ◌≡◌, refl, ap, sym, ◌∙◌, arith, subst, some, Option-cases, pos, replicate, ◌==◌,
  Bool-cases, inl, inr,
}
use virtio_pci_simple_driver.Bus.{Bus, World}
use virtio_pci_simple_driver.Pci.{device_probe}
use virtio_pci_simple_driver.Caps.{read_caps}
use virtio_pci_simple_driver.Ring.Layout.{IsLaidOut}
use virtio_pci_simple_driver.VirtioPci.{print_common_cfg}
use virtio_pci_simple_driver.Startup.{start}
use virtio_pci_simple_driver.Startup.Ready.{start-IsLaidOut}
use virtio_pci_simple_driver.Blk.{Blk, Heap, Statics, mask, blk_qsize, blk_buf_len, init, init_at}
use virtio_pci_simple_driver.Blk.Chain.{IsSized}
use virtio_pci_simple_driver.Blk.System.{System, idle, IsStart}
use virtio_pci_simple_driver.Blk.Enabled.{go_on, init_at-of, conclude-Enabled}

-- `gs_virtio_blk` and `gs_blk_buf` when the program starts: C sets them to zero.
abbrev pub bss : Blk
bss = record {
  status = replicate 128 0;
  info = replicate 128 0;
  ops = replicate 128 (record { type = 0; reserved = 0; sector = 0 });
  vr = record { size = 0; qid = 0; desc = 0; avail = 0; used = 0; notify_addr = 0 };
  desc = replicate 128 (record { addr = 0; len = 0; flags = 0; next = 0 });
  avail = record { flags = 0; idx = 0; ring = replicate 128 0 };
  used = record { flags = 0; idx = 0; ring = replicate 128 (record { id = 0; len = 0 }) };
  capacity = 0;
  used_idx = 0;
  avail_idx = 0;
}

-- What an initialisation leaves of them: it sets the ring's parts and the capacity, and resets neither
-- the indices nor what is in the buffer.
abbrev pub after_init : Blk → Statics → Blk
after_init blk g = record blk { vr = g.queue.vr; capacity = g.capacity }

-- The system after the first initialisation.
abbrev pub at_rest : Statics → Heap → System
at_rest g heap = record { blk = after_init bss g; heap = heap; served = 0; phase = idle }

module _ {D : Type 0} (bus : Bus D) (fuel buf : ℕ) (page : buf % 4096 ≡ 0)
    (low : buf < 2 ^ 63) where
  init_at-IsLaidOut :
      (pci_base : ℕ) (g g' : Statics) (σ : World D)
      → (init_at bus fuel buf pci_base g σ).0 ≡ some (pos 0, g')
      → IsLaidOut g'.queue.vr buf blk_buf_len blk_qsize 0
  unfolding go_on
  init_at-IsLaidOut pci_base g g' σ e = elim (Option-cases (read_caps bus fuel pci_base g.hw σ).0) [
    | inl h ↦ let never = rw (init_at-of bus fuel buf pci_base g σ _ h) at e in cc
    | inr ((code, hw), h) ↦
        let before = (print_common_cfg bus hw (read_caps bus fuel pci_base g.hw σ).1).1 in
        let started = start bus hw mask blk_qsize buf blk_buf_len g.queue before in
        let (g'', done, kept, _) =
          conclude-Enabled bus (record g { hw = hw }) started.0 started.1 in
        let ended = rw (init_at-of bus fuel buf pci_base g σ _ h, done) at e in
        let zero : started.0.0 ≡ pos 0 = cc in
        let same : g'' ≡ g' = cc in
        let queue = sym kept ∙ ap (λ (x : Statics). x.queue) same in
        subst (λ q. IsLaidOut q.vr buf blk_buf_len blk_qsize 0) queue
          (start-IsLaidOut bus hw mask blk_qsize buf blk_buf_len g.queue page low (omega arith)
            before zero)
  ]

  init-IsLaidOut :
      (g g' : Statics) (σ : World D)
      → (init bus fuel buf g σ).0 ≡ some (pos 0, g')
      → IsLaidOut g'.queue.vr buf blk_buf_len blk_qsize 0
  unfolding init
  init-IsLaidOut g g' σ e =
      let probed = device_probe bus 0x1af4 0x1042 g.s_off σ in
      elim (Bool-cases (probed.0.0 == 0)) [
        | inl h ↦ let never = rw h at e in cc
        | inr h ↦
            init_at-IsLaidOut probed.0.0 (record g { s_off = probed.0.1 }) g' probed.1 (rw h at e)
      ]

  -- Where the first call of `virtio_pci_blk_init` returns 0, with `gs_blk_buf` page-aligned and below 2^63, whatever the devices
  -- answer: the queue has 128 entries and its three parts are on page boundaries inside that buffer, none reaching
  -- into the next, and the static data are such as calls of `virtio_pci_blk_rw` can start from: the arrays have their
  -- sizes, nothing is published, and nothing in the used ring is untaken.
  pub init-IsStart :
      (g g' : Statics) (heap : Heap) (σ : World D)
      → (init bus fuel buf g σ).0 ≡ some (pos 0, g')
      → IsLaidOut g'.queue.vr buf blk_buf_len blk_qsize 0 × IsStart (at_rest g' heap)
  init-IsStart g g' heap σ e =
      let laid = init-IsLaidOut g g' σ e in
      let sized : IsSized (after_init bss g') = record {
        queue = laid.sized;
        status_len = refl;
        info_len = refl;
        ops_len = refl;
        desc_len = refl;
        avail_len = refl;
        used_len = refl;
      } in
      (laid, record { sized = sized; at_rest = refl; taken = refl; seen = refl })
