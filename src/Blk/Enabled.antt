-- ===== src/Blk/Enabled.antt =====
-- `virtio_pci_blk_init` on a device that has been found: what it has written when it returns.
use virtio_pci_simple_driver.Prelude.{
  ℕ, ◌+◌, ◌≡◌, ◌≢◌, ◌⊎◌, inl, inr, refl, ap, sym, subst, ◌∙◌, arith, List, ◌∷◌, Option, none, some,
  ℤ, pos, Bool-cases,
}
use virtio_pci_simple_driver.Prelude.Bits.{bit}
use virtio_pci_simple_driver.Bus.{Bus, World, Io, pure, ◌>>=◌, ◌>>◌, Access, store}
use virtio_pci_simple_driver.Caps.{read_caps}
use virtio_pci_simple_driver.VirtioPci.{Hw, print_common_cfg}
use virtio_pci_simple_driver.Plic.{priority, enable_base}
use virtio_pci_simple_driver.Plic.Enable.{enable_sets_bit}
use virtio_pci_simple_driver.Startup.{Queue, start, is_zero}
use virtio_pci_simple_driver.Startup.Stores.{stores, Written, start-Written, ne_zero}
use virtio_pci_simple_driver.Startup.Ready.{eq_zero}
use virtio_pci_simple_driver.Blk.{Statics, mask, blk_qsize, blk_buf_len, blk_cfg, conclude, init_at}

-- The stores at the end, on `l` before: where the code is 0 the priority and the enable bit of interrupt 33, else none.
abbrev pub Enabled : ℤ → (l after : List Access) → Type 0
Enabled r l after =
    ((r ≡ pos 0)
      × ((new : ℕ) × (bit 1 new ≡ 1)
          × (after ≡ store 32 (enable_base + 4) new ∷ store 32 (priority + 132) 1 ∷ l)))
    ⊎ ((r ≢ pos 0) × (after ≡ l))

module _ {D : Type 0} (bus : Bus D) where
  blk_cfg-stores : (hw : Hw) (σ : World D) → stores (blk_cfg bus hw σ).1.log ≡ stores σ.log
  unfolding blk_cfg
  blk_cfg-stores hw σ = refl

  -- The end of the function, on what steps 1 to 8 return.
  pub conclude-Enabled :
      (g : Statics) (out : ℤ × Queue) (σ : World D)
      → let (done, τ) = conclude bus g out σ in
        (g' : Statics) × (done ≡ (out.0, g'))
        × (g'.queue ≡ out.1)
        × Enabled out.0 (stores σ.log) (stores τ.log)
  unfolding conclude
  conclude-Enabled g (r, q) σ = elim (Bool-cases (is_zero r)) [
    | inl e ↦ rw e (
        let next = (blk_cfg bus g.hw σ).1 in
        let (old, new, log, bits) = enable_sets_bit bus 33 next (omega arith) in
        (
          _,
          refl,
          refl,
          inl (
            eq_zero r e,
            (
              new,
              bits 1 (omega arith),
              ap stores log
                  ∙ ap (λ l. store 32 (enable_base + 4) new ∷ store 32 (priority + 132) 1 ∷ l)
                      (blk_cfg-stores g.hw σ),
            ),
          ),
        ))
    | inr e ↦ rw e (_, refl, refl, inr (ne_zero r e, refl))
  ]

  -- The function behind the walk of the capabilities.
  unfoldable pub go_on : (buf : ℕ) → Statics → Option (ℤ × Hw) → Io D (Option (ℤ × Statics))
  go_on buf g none = pure none
  go_on buf g (some (_, hw)) = do
    print_common_cfg bus hw
    out ← start bus hw mask blk_qsize buf blk_buf_len g.queue
    done ← conclude bus (record g { hw = hw }) out
    pure (some done)

  pub init_at-of :
      (fuel buf pci_base : ℕ) (g : Statics) (σ : World D) (caps : Option (ℤ × Hw))
      → (read_caps bus fuel pci_base g.hw σ).0 ≡ caps
      → init_at bus fuel buf pci_base g σ ≡ go_on buf g caps (read_caps bus fuel pci_base g.hw σ).1
  unfolding init_at go_on
  init_at-of fuel buf pci_base g σ caps e =
      ap (λ c. go_on buf g c (read_caps bus fuel pci_base g.hw σ).1) e

  -- Where the walk of the capabilities has ended, `virtio_pci_blk_init` returns, whatever the
  -- device answers. Its stores after the common configuration has been printed are those of
  -- steps 1 to 8, and behind them, where it returns 0, the priority and the enable bit of
  -- interrupt 33 at the PLIC: with an error code the interrupt is not enabled, and otherwise
  -- it is enabled only after DRIVER_OK is set.
  pub init_at-Enabled :
      (fuel buf pci_base : ℕ) (g : Statics) (σ : World D) (code : ℤ) (hw : Hw)
      → (read_caps bus fuel pci_base g.hw σ).0 ≡ some (code, hw)
      → let before = (print_common_cfg bus hw (read_caps bus fuel pci_base g.hw σ).1).1 in
        let (out, τ) = init_at bus fuel buf pci_base g σ in
        (r : ℤ) × (g' : Statics) × (l : List Access) × (out ≡ some (r, g'))
        × Written hw mask 128 before.log l (r, g'.queue)
        × Enabled r (stores l) (stores τ.log)
  unfolding go_on
  init_at-Enabled fuel buf pci_base g σ code hw e =
      let before = (print_common_cfg bus hw (read_caps bus fuel pci_base g.hw σ).1).1 in
      let started = start bus hw mask blk_qsize buf blk_buf_len g.queue before in
      let written = start-Written hw bus mask blk_qsize buf blk_buf_len g.queue before in
      let (g', done, kept, enabled) = conclude-Enabled (record g { hw = hw }) started.0 started.1 in
      rw (init_at-of fuel buf pci_base g σ _ e, done)
        (
          started.0.0,
          g',
          started.1.log,
          refl,
          subst (λ q. Written hw mask 128 before.log started.1.log (started.0.0, q)) (sym kept)
              written,
          enabled,
        )
