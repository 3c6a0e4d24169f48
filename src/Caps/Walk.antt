-- ===== src/Caps/Walk.antt =====
-- The capability list as data, and the walk of `virtio_pci_read_caps` over it.
use virtio_pci_simple_driver.Prelude.{
  ℕ, zero, suc, ◌+◌, ◌*◌, ◌%◌, ◌^◌, ◌<◌, ◌≡◌, ◌≢◌, refl, ap, ◌∙◌, arith, List, [], ◌∷◌, none, some,
  bit_and, ◌==◌, if◌then◌else◌, Bool-cases, inl, inr, Bool, true, false, ◌&&◌, u64, length, pos,
  negsuc,
}
use virtio_pci_simple_driver.Bus.{Bus, World}
use virtio_pci_simple_driver.Pci.{pci_addr, config_read8, config_read64, config_read}
use virtio_pci_simple_driver.VirtioPci.{Hw}
use virtio_pci_simple_driver.Caps.{
  Cap, cap_of_bytes, le32, pci_addr_bar0, pci_addr_cap, pci_cap_id_vndr, cap_common_cfg,
  cap_notify_cfg, cap_isr_cfg, cap_device_cfg, get_cfg_addr, read_cap, visit, walk, read_caps,
  missing, finish,
}

-- What the walk relies on: configuration space reads the same in every state of the bus.
pub record IsConfigSpace {D : Type 0} (bus : Bus D) (byte quad : ℕ → ℕ) : Type 0 where
  pub reads8 : (a : ℕ) (dev : D) → (bus.answer 8 (pci_addr a) dev).0 % 2 ^ 8 ≡ byte a
  pub reads64 : (a : ℕ) (dev : D) → (bus.answer 64 (pci_addr a) dev).0 % 2 ^ 64 ≡ quad a

module _ (byte quad : ℕ → ℕ) (pci_base : ℕ) where
  abbrev pub bytes_at : (len a : ℕ) → List ℕ
  bytes_at zero a = []
  bytes_at (suc len) a = byte a ∷ bytes_at len (u64 (a + 1))

  -- The capability at a position of the list.
  abbrev pub cap_at : ℕ → Cap
  cap_at p = cap_of_bytes (bytes_at 16 (u64 (p + pci_base)))

  -- Where the structure lies that it describes.
  abbrev pub address : ℕ → ℕ
  address p = u64 (
      bit_and (quad (u64 (pci_base + pci_addr_bar0 + 4 * (cap_at p).bar))) 0xffff_ffff_ffff_fff0
      + (cap_at p).offset)

  abbrev pub multiplier : ℕ → ℕ
  multiplier p = le32 (bytes_at 4 (u64 (u64 (p + pci_base) + 16))) 0

  abbrev pub is_kind : (kind p : ℕ) → Bool
  is_kind kind p = (cap_at p).cap_vndr == pci_cap_id_vndr && (cap_at p).cfg_type == kind

  -- `value` at the last vendor capability of a kind, and `old` where there is none.
  pub last_of : (kind : ℕ) (value : ℕ → ℕ) (old : ℕ) → List ℕ → ℕ
  last_of kind value old [] = old
  last_of kind value old (p ∷ ps) = last_of kind value (if is_kind kind p then value p else old) ps

  -- From `cursor` the `cap_next` fields lead through the positions of the list to 0.
  abbrev pub Chain : (cursor : ℕ) → List ℕ → Type 0
  Chain cursor [] = cursor ≡ 0
  Chain cursor (p ∷ ps) = (cursor ≡ p) × (p ≢ 0) × Chain (cap_at p).cap_next ps

  -- What the walk leaves, from `old`.
  pub record Collected (ps : List ℕ) (old new : Hw) : Type 0 where
    pub common : new.common_cfg ≡ last_of cap_common_cfg address old.common_cfg ps
    pub notify : new.notify_cfg ≡ last_of cap_notify_cfg address old.notify_cfg ps
    pub multiplied :
        new.notify_off_multiplier ≡ last_of cap_notify_cfg multiplier old.notify_off_multiplier ps
    pub isr : new.isr_cfg ≡ last_of cap_isr_cfg address old.isr_cfg ps
    pub device : new.device_cfg ≡ last_of cap_device_cfg address old.device_cfg ps

  -- The same for one vendor capability of kind `kind`.
  abbrev pub applied : (kind addr mult : ℕ) → Hw → Hw
  applied kind addr mult hw = record hw {
    common_cfg = if kind == cap_common_cfg then addr else hw.common_cfg;
    notify_cfg = if kind == cap_notify_cfg then addr else hw.notify_cfg;
    notify_off_multiplier = if kind == cap_notify_cfg then mult else hw.notify_off_multiplier;
    isr_cfg = if kind == cap_isr_cfg then addr else hw.isr_cfg;
    device_cfg = if kind == cap_device_cfg then addr else hw.device_cfg;
  }

  -- Of the four kinds a capability has one at most.
  other_kind : (kind a b : ℕ) → (kind == a) ≡ true → a ≢ b → (kind == b) ≡ false
  other_kind kind a b h ne = ground arith

  module _ {D : Type 0} {bus : Bus D} (space : IsConfigSpace bus byte quad) where
    config_read-bytes_at : (len a : ℕ) (σ : World D) → (config_read bus len a σ).0 ≡ bytes_at len a
    unfolding config_read
    config_read-bytes_at zero a σ = refl
    config_read-bytes_at (suc len) a σ =
        rw (space.reads8 a σ.dev, config_read-bytes_at len (u64 (a + 1)) _)

    get_cfg_addr-address :
        (cap : Cap) (σ : World D)
        → (get_cfg_addr bus pci_base cap σ).0
          ≡ u64 (
              bit_and (quad (u64 (pci_base + pci_addr_bar0 + 4 * cap.bar))) 0xffff_ffff_ffff_fff0
              + cap.offset)
    unfolding get_cfg_addr config_read64
    get_cfg_addr-address cap σ = rw (space.reads64 _ σ.dev)

    read_cap-applied :
        (here addr : ℕ) (cap : Cap) (hw : Hw) (σ : World D)
        → ((τ : World D) → (get_cfg_addr bus pci_base cap τ).0 ≡ addr)
        → (read_cap bus pci_base here cap hw σ).0
          ≡ applied cap.cfg_type addr (le32 (bytes_at 4 (u64 (here + 16))) 0) hw
    unfolding read_cap
    read_cap-applied here addr cap hw σ found = elim (Bool-cases (cap.cfg_type == cap_common_cfg)) [
      | inl e ↦ rw (
        e,
        other_kind cap.cfg_type 1 2 e (omega arith),
        other_kind cap.cfg_type 1 3 e (omega arith),
        other_kind cap.cfg_type 1 4 e (omega arith),
        found,
      )
      | inr e ↦ rw e (elim (Bool-cases (cap.cfg_type == cap_notify_cfg)) [
        | inl n ↦ rw (
          n,
          other_kind cap.cfg_type 2 3 n (omega arith),
          other_kind cap.cfg_type 2 4 n (omega arith),
          found,
          config_read-bytes_at,
        )
        | inr n ↦ rw n (elim (Bool-cases (cap.cfg_type == cap_device_cfg)) [
          | inl d ↦ rw (d, other_kind cap.cfg_type 4 3 d (omega arith), found)
          | inr d ↦ rw d (elim (Bool-cases (cap.cfg_type == cap_isr_cfg)) [
            | inl i ↦ rw (i, found)
            | inr i ↦ rw i
          ])
        ])
      ])
    ]

    -- What one round does to the structure, in the terms of `last_of`.
    abbrev after : ℕ → Hw → Hw
    after p hw = record hw {
      common_cfg = if is_kind cap_common_cfg p then address p else hw.common_cfg;
      notify_cfg = if is_kind cap_notify_cfg p then address p else hw.notify_cfg;
      notify_off_multiplier =
          if is_kind cap_notify_cfg p then multiplier p else hw.notify_off_multiplier;
      isr_cfg = if is_kind cap_isr_cfg p then address p else hw.isr_cfg;
      device_cfg = if is_kind cap_device_cfg p then address p else hw.device_cfg;
    }

    visit-after :
        (p : ℕ) (hw : Hw) (σ : World D)
        → (visit bus pci_base (u64 (p + pci_base)) hw σ).0 ≡ ((cap_at p).cap_next, after p hw)
    unfolding visit
    visit-after p hw σ =
        rw (config_read-bytes_at 16 (u64 (p + pci_base)) σ)
          (elim (Bool-cases ((cap_at p).cap_vndr == pci_cap_id_vndr)) [
            | inl v ↦ rw (
              v,
              read_cap-applied (u64 (p + pci_base)) (address p) (cap_at p) hw _
                  (get_cfg_addr-address (cap_at p)),
            )
            | inr v ↦ rw v
          ])

    walk-visit :
        (n cursor : ℕ) (hw : Hw) (σ : World D)
        → cursor ≢ 0
        → (walk bus (suc n) pci_base cursor hw σ).0
          ≡ (walk bus n pci_base
              (cap_at cursor).cap_next
              (after cursor hw)
              (visit bus pci_base (u64 (cursor + pci_base)) hw σ).1).0
    unfolding walk
    walk-visit n cursor hw σ ne =
        let go : (cursor == 0) ≡ false = ground arith in
        rw go (
          ap
            (λ v.
              (walk bus n pci_base v.0 v.1 (visit bus pci_base (u64 (cursor + pci_base)) hw σ).1).0)
            (visit-after cursor hw σ))

    walk-Collected :
        (ps : List ℕ) (fuel cursor : ℕ) (hw : Hw) (σ : World D)
        → Chain cursor ps
        → length ps < fuel
        → (new : Hw) × ((walk bus fuel pci_base cursor hw σ).0 ≡ some new) × Collected ps hw new
    unfolding walk last_of
    walk-Collected ps zero cursor hw σ chain enough = absurd (omega arith)
    walk-Collected [] (suc n) cursor hw σ chain enough = (
      hw,
      rw chain,
      record { common = refl; notify = refl; multiplied = refl; isr = refl; device = refl },
    )
    walk-Collected (p ∷ ps) (suc n) cursor hw σ chain enough =
        let τ = (visit bus pci_base (u64 (p + pci_base)) hw σ).1 in
        let (new, e, c) =
          walk-Collected ps n (cap_at p).cap_next (after p hw) τ chain.2 (omega arith) in
        (
          new,
          rw chain.0 (walk-visit n p hw σ chain.1 ∙ e),
          record {
            common = c.common;
            notify = c.notify;
            multiplied = c.multiplied;
            isr = c.isr;
            device = c.device;
          },
        )

    -- Where the loop of `virtio_pci_read_caps` starts.
    abbrev first : ℕ
    first = byte (u64 (pci_base + pci_addr_cap))

    read_caps-walk :
        (fuel : ℕ) (hw : Hw) (σ : World D)
        → (τ : World D) × ((read_caps bus fuel pci_base hw σ).0
            ≡ finish (walk bus fuel pci_base first hw τ).0)
    unfolding read_caps config_read8
    read_caps-walk fuel hw σ =
        let τ = (config_read8 bus (u64 (pci_base + pci_addr_cap)) σ).1 in
        (τ, ap (λ c. finish (walk bus fuel pci_base c hw τ).0) (space.reads8 _ σ.dev))

    -- `virtio_pci_read_caps` on a configuration space that reads the same at all times and a
    -- capability list that ends: it returns with as much fuel as the list is long and one more;
    -- each address in the structure is that of the last vendor capability of its kind, and as
    -- before where there is none; the result is 0 exactly when the four addresses are set.
    pub read_caps-Collected :
        (ps : List ℕ) (fuel : ℕ) (hw : Hw) (σ : World D)
        → Chain first ps
        → length ps < fuel
        → (new : Hw) × ((read_caps bus fuel pci_base hw σ).0
            ≡ some (if missing new then negsuc 0 else pos 0, new))
          × Collected ps hw new
    read_caps-Collected ps fuel hw σ chain enough =
        let (τ, begin) = read_caps-walk fuel hw σ in
        let (new, e, c) = walk-Collected ps fuel first hw τ chain enough in
        (new, begin ∙ ap finish e, c)

    walk_endless :
        (Reached : ℕ → Type 0)
        → ((p : ℕ) → Reached p → (p ≢ 0) × Reached (cap_at p).cap_next)
        → (fuel cursor : ℕ) (hw : Hw) (σ : World D) → Reached cursor
        → (walk bus fuel pci_base cursor hw σ).0 ≡ none
    walk_endless Reached onward zero cursor hw σ r = unfold walk in refl
    walk_endless Reached onward (suc n) cursor hw σ r =
        walk-visit n cursor hw σ (onward cursor r).0
        ∙ walk_endless Reached onward n (cap_at cursor).cap_next (after cursor hw)
            (visit bus pci_base (u64 (cursor + pci_base)) hw σ).1 (onward cursor r).1

    -- A capability list on which every position that is reached leads to another, as in a cycle, has
    -- no end: no fuel is enough for `virtio_pci_read_caps`.
    pub read_caps_endless :
        (Reached : ℕ → Type 0)
        → ((p : ℕ) → Reached p → (p ≢ 0) × Reached (cap_at p).cap_next)
        → Reached first
        → (fuel : ℕ) (hw : Hw) (σ : World D) → (read_caps bus fuel pci_base hw σ).0 ≡ none
    read_caps_endless Reached onward start fuel hw σ =
        let (τ, begin) = read_caps-walk fuel hw σ in
        begin ∙ ap finish (walk_endless Reached onward fuel first hw τ start)
