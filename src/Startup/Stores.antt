-- ===== src/Startup/Stores.antt =====
-- What the initialisation writes, for whatever the device answers.
use virtio_pci_simple_driver.Prelude.{
  ℕ, zero, suc, ◌*◌, ◌≤◌, u64, ◌%◌, ◌^◌, ◌<◌, ◌≡◌, ap, ◌∙◌, ◌≢◌, ◌⊎◌, ◌++◌, inl, inr, refl, arith,
  List, [], ◌∷◌, false, bit_and, bit_or, ◌==◌, ltb, Bool-cases, pos, negsuc, ℤ, ◌/◌,
}
use virtio_pci_simple_driver.Bus.{Bus, World, Access, read, write, load, store, fence}
use virtio_pci_simple_driver.Ring.{Vring, vring_init}
use virtio_pci_simple_driver.VirtioPci.{
  Hw, reg, set_status, get_status, get_device_features, set_driver_features, get_queue_enable,
  get_queue_size, set_queue_size, disable_config_msix, device_feature, disable_queue_msix,
  set_queue_addr, set_queue_enable, device_status, device_feature_select, driver_feature_select,
  driver_feature, queue_select, queue_size, config_msix_vector, queue_msix_vector, queue_desc,
  queue_driver, queue_device, queue_enable,
}
use virtio_pci_simple_driver.Startup.{
  Queue, handshake, go_live, prepare_queue, start, stat_features_ok, stat_driver_ok, is_zero,
}

-- The stores of a log, still the latest first.
abbrev pub stores : List Access → List Access
stores [] = []
stores (load w a v ∷ l) = stores l
stores (store w a v ∷ l) = store w a v ∷ stores l
stores (fence ∷ l) = stores l

-- A log without its fences.
abbrev pub accesses : List Access → List Access
accesses [] = []
accesses (load w a v ∷ l) = load w a v ∷ accesses l
accesses (store w a v ∷ l) = store w a v ∷ accesses l
accesses (fence ∷ l) = accesses l

-- A log with the accesses of a list made after it, in the order of the list.
abbrev pub emit : List Access → List Access → List Access
emit [] l = l
emit (x ∷ xs) l = emit xs (x ∷ l)

pub ne_zero : (r : ℤ) → is_zero r ≡ false → r ≢ pos 0
ne_zero (pos zero) h = cc
ne_zero (pos (suc n)) h = λ e. cc
ne_zero (negsuc n) h = λ e. cc

module _ (hw : Hw) where
  -- Steps 1 to 6: reset, ACKNOWLEDGE, DRIVER, the two words of the features that are read, those of the
  -- features that are taken, FEATURES_OK, and the status that is read back.
  abbrev pub handshake_log : (mask : ℕ → ℕ) (low high status : ℕ) → List Access
  handshake_log mask low high status =
      let features = mask (bit_or (u64 (high * 2 ^ 32)) low) in
      store 8 (reg hw device_status) 0
      ∷ store 8 (reg hw device_status) 1
      ∷ store 8 (reg hw device_status) 3
      ∷ store 32 (reg hw device_feature_select) 0
      ∷ load 32 (reg hw device_feature) low
      ∷ store 32 (reg hw device_feature_select) 1
      ∷ load 32 (reg hw device_feature) high
      ∷ store 32 (reg hw driver_feature_select) 0
      ∷ store 32 (reg hw driver_feature) (bit_and features 0xffff_ffff % 2 ^ 32)
      ∷ store 32 (reg hw driver_feature_select) 1
      ∷ store 32 (reg hw driver_feature) (features / 2 ^ 32 % 2 ^ 32)
      ∷ store 8 (reg hw device_status) 11
      ∷ load 8 (reg hw device_status) status
      ∷ []

  abbrev pub select_store : Access
  select_store = store 16 (reg hw queue_select) 0

  -- Steps 7 and 8: the queue's size, vectors, addresses and enable bit, and DRIVER_OK last.
  abbrev pub live_stores : (status qsize : ℕ) → Vring → List Access
  live_stores status qsize vr =
      select_store
      ∷ store 16 (reg hw queue_size) (qsize % 2 ^ 16)
      ∷ store 16 (reg hw config_msix_vector) 0xffff
      ∷ select_store
      ∷ store 16 (reg hw queue_msix_vector) 0xffff
      ∷ select_store
      ∷ store 64 (reg hw queue_desc) (vr.desc % 2 ^ 64)
      ∷ store 64 (reg hw queue_driver) (vr.avail % 2 ^ 64)
      ∷ store 64 (reg hw queue_device) (vr.used % 2 ^ 64)
      ∷ select_store
      ∷ store 16 (reg hw queue_enable) 1
      ∷ store 8 (reg hw device_status) (bit_or status stat_driver_ok % 2 ^ 8)
      ∷ []

  -- What is looked at before the queue is touched: nothing, the enable bit of queue 0, or that and the
  -- maximum size of queue 0.
  abbrev pub looks : (n enabled max : ℕ) → List Access
  looks zero enabled max = []
  looks (suc zero) enabled max = select_store ∷ load 16 (reg hw queue_enable) enabled ∷ []
  looks (suc (suc n)) enabled max =
      select_store
      ∷ load 16 (reg hw queue_enable) enabled
      ∷ select_store
      ∷ load 16 (reg hw queue_size) max
      ∷ []

  module _ {D : Type 0} (bus : Bus D) where
    handshake-log :
        (mask : ℕ → ℕ) (σ : World D)
        → (low : ℕ) × (high : ℕ) × (low < 2 ^ 32)
          × (high < 2 ^ 32)
          × (accesses (handshake bus hw mask σ).1.log
              ≡ emit (handshake_log mask low high (handshake bus hw mask σ).0) (accesses σ.log))
    unfolding handshake get_device_features set_driver_features set_status get_status
    handshake-log mask σ =
        let μ = set_status bus hw 3 (set_status bus hw 1 (set_status bus hw 0 σ).1).1 in
        let low =
          read bus 32 (reg hw device_feature)
            (write bus 32 (reg hw device_feature_select) 0 μ.1).1 in
        let high =
          read bus 32 (reg hw device_feature)
            (write bus 32 (reg hw device_feature_select) 1 low.1).1 in
        (low.0, high.0, omega arith, omega arith, refl)

    go_live-log :
        (status qsize : ℕ) (q : Queue) (σ : World D)
        → ((go_live bus hw status qsize q σ).0 ≡ (pos 0, q))
          × (accesses (go_live bus hw status qsize q σ).1.log
              ≡ emit (live_stores status qsize q.vr) (accesses σ.log))
    unfolding go_live set_queue_size disable_config_msix disable_queue_msix set_queue_addr
        set_queue_enable set_status
    go_live-log status qsize q σ = (refl, refl)

  -- The accesses, fences left out, when the function returns `code`, with `q'` kept: the log is `l`, and was `old`. Where
  -- the code is 0, the status that was read has FEATURES_OK, the queue was not enabled and is large
  -- enough, and everything has been written, with the addresses in `q'`; otherwise no more than
  -- the handshake was done and queue 0 looked at.
  abbrev pub Logged :
      (mask : ℕ → ℕ) (low high status qsize : ℕ) (old l : List Access) → ℤ × Queue → Type 0
  Logged mask low high status qsize old l (code, q') =
      ((code ≡ pos 0)
        × (bit_and status stat_features_ok ≢ 0)
        × ((enabled : ℕ) × (max : ℕ) × (enabled ≡ 0)
            × (max ≢ 0)
            × (qsize ≤ max)
            × (accesses l
                ≡ emit
                    (handshake_log mask low high status
                      ++ (looks 2 enabled max ++ live_stores status qsize q'.vr))
                    (accesses old))))
      ⊎ ((code ≢ pos 0)
          × ((n : ℕ) × (enabled : ℕ) × (max : ℕ) × (accesses l
                ≡ emit (handshake_log mask low high status ++ looks n enabled max) (accesses old))))

  abbrev pub Written : (mask : ℕ → ℕ) (qsize : ℕ) (old l : List Access) → ℤ × Queue → Type 0
  Written mask qsize old l out =
      (low : ℕ) × (high : ℕ) × (status : ℕ) × (low < 2 ^ 32)
      × (high < 2 ^ 32)
      × Logged mask low high status qsize old l out

  module _ {D : Type 0} (bus : Bus D) (mask : ℕ → ℕ) (qsize buf buf_len : ℕ) (q : Queue) where
    -- From the check of the maximum size on.
    queue-Logged :
        (low high status enabled : ℕ) (old : List Access) (σ : World D)
        → bit_and status stat_features_ok ≢ 0
        → enabled ≡ 0
        → accesses σ.log
          ≡ emit (handshake_log mask low high status ++ looks 1 enabled 0) (accesses old)
        → let (out, τ) = prepare_queue bus hw status qsize buf buf_len q σ in
          Logged mask low high status qsize old τ.log out
    unfolding prepare_queue get_queue_size go_live
    queue-Logged low high status enabled old σ agreed idle e =
        let μ = get_queue_size bus hw 0 σ in
        let after : accesses μ.1.log
            ≡ emit (handshake_log mask low high status ++ looks 2 enabled μ.0) (accesses old) =
          ap (λ l. load 16 (reg hw queue_size) μ.0 ∷ select_store ∷ l) e in
        let r = (vring_init q.vr buf buf_len qsize 0).0 in
        elim (Bool-cases (μ.0 == 0)) [
          | inl none_there ↦ rw none_there (inr (λ h. cc, (2, enabled, μ.0, after)))
          | inr some_there ↦ rw some_there (elim (Bool-cases (ltb μ.0 qsize)) [
            | inl short ↦ rw short (inr (λ h. cc, (2, enabled, μ.0, after)))
            | inr enough ↦ rw enough (elim (Bool-cases (is_zero r)) [
              | inl ready ↦
                  let vr' = (vring_init q.vr buf buf_len qsize 0).1 in
                  let q' : Queue = record { vr = vr'; qsize = μ.0 } in
                  let live = go_live-log bus status qsize q' μ.1 in
                  rw ready (
                    inl (
                      refl,
                      agreed,
                      (
                        enabled,
                        μ.0,
                        idle,
                        ground arith,
                        ground arith,
                        live.1 ∙ ap (emit (live_stores status qsize vr')) after,
                      ),
                    ))
              | inr bad ↦ rw bad (inr (ne_zero r bad, (2, enabled, μ.0, after)))
            ])
          ])
        ]

    -- The initialisation of a device, whatever it answers: every access it makes, in their order, the fences
    -- left out. It
    -- resets the device, reads the two words of the features, writes back what the mask leaves of
    -- them, sets FEATURES_OK and reads the status. It returns 0 only where that status has FEATURES_OK,
    -- queue 0 was not enabled and its maximum size is not 0 and not below the size asked for, and then it
    -- has made exactly the stores of the standard, DRIVER_OK last. With an error code it has at most
    -- looked at queue 0 after the status, and written neither a queue address, nor the enable
    -- bit, nor DRIVER_OK.
    pub start-Written :
        (σ : World D)
        → let (out, τ) = start bus hw mask qsize buf buf_len q σ in
          Written mask qsize σ.log τ.log out
    unfolding start prepare_queue get_queue_enable get_queue_size
    start-Written σ =
        let (low, high, low_lt, high_lt, e) = handshake-log bus mask σ in
        let status = (handshake bus hw mask σ).0 in
        elim (Bool-cases (bit_and status stat_features_ok == 0)) [
          | inl refused ↦
              rw refused (low, high, status, low_lt, high_lt, inr (λ h. cc, (0, 0, 0, e)))
          | inr agreed ↦
              let τ = (handshake bus hw mask σ).1 in
              let ε = get_queue_enable bus hw 0 τ in
              let after : accesses ε.1.log
                  ≡ emit (handshake_log mask low high status ++ looks 1 ε.0 0) (accesses σ.log) =
                ap (λ l. load 16 (reg hw queue_enable) ε.0 ∷ select_store ∷ l) e in
              rw agreed (elim (Bool-cases (ε.0 == 0)) [
                | inl idle ↦ rw idle (
                  low,
                  high,
                  status,
                  low_lt,
                  high_lt,
                  queue-Logged low high status ε.0 σ.log ε.1 (ground arith) (ground arith) after,
                )
                | inr busy ↦
                    rw busy (low, high, status, low_lt, high_lt, inr (λ h. cc, (1, ε.0, 0, after)))
              ])
        ]
