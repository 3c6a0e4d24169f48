-- ===== src/Startup/Typed.antt =====
-- Each access of the steps 1 to 8 against the declaration of `struct virtio_pci_common_cfg`.
use virtio_pci_simple_driver.Prelude.{
  ℕ, ◌*◌, ◌≡◌, refl, List, ◌∷◌, Bool, true, false, bit_and, ◌==◌, ltb, Bool-cases, inl, inr,
  if◌then◌else◌,
}
use virtio_pci_simple_driver.Bus.{Bus, World, Access, load, store, fence}
use virtio_pci_simple_driver.Ring.{vring_init}
use virtio_pci_simple_driver.VirtioPci
use virtio_pci_simple_driver.VirtioPci.{
  Hw, Field, reg, set_status, get_status, get_device_features, set_driver_features,
  get_queue_enable, get_queue_size, set_queue_size, disable_config_msix, disable_queue_msix,
  set_queue_addr, set_queue_enable, device_status, device_feature, num_queues, config_generation,
  queue_notify_off, queue_notify_data, device_feature_select, driver_feature_select, driver_feature,
  queue_select, queue_size, config_msix_vector, queue_msix_vector, queue_desc, queue_driver,
  queue_device, queue_enable, queue_reset,
}
use virtio_pci_simple_driver.Startup.{
  Queue, handshake, go_live, prepare_queue, start, stat_features_ok, is_zero,
}

-- The fields that are not declared read-only for the driver.
abbrev pub is_writable : Field → Bool
is_writable device_feature = false
is_writable num_queues = false
is_writable config_generation = false
is_writable queue_notify_off = false
is_writable queue_notify_data = false
is_writable _ = true

-- The fields about a specific virtqueue, which are those of the queue that `queue_select` has.
abbrev pub is_of_queue : Field → Bool
is_of_queue queue_size = true
is_of_queue queue_msix_vector = true
is_of_queue queue_enable = true
is_of_queue queue_notify_off = true
is_of_queue queue_desc = true
is_of_queue queue_driver = true
is_of_queue queue_device = true
is_of_queue queue_notify_data = true
is_of_queue queue_reset = true
is_of_queue _ = false

-- Whether queue 0 is known to be selected after a store of `v` to a field.
abbrev pub selected : Field → (v : ℕ) → Bool → Bool
selected queue_select v known = v == 0
selected _ v known = known

abbrev pub can_use : Field → Bool → Bool
can_use f known = if is_of_queue f then known else true

-- The accesses of the log and, before them, those of `old`: fences, loads of whole fields, and stores of whole fields that the
-- driver may write; those of a queue only while queue 0 is known to be selected. The Boolean says
-- whether it is at the end.
pub data Typed (hw : Hw) (old : List Access) : Bool → List Access → Type 0 where
  done : Typed hw old false old
  fenced : {known : Bool} {l : List Access} → Typed hw old known l → Typed hw old known (fence ∷ l)
  loaded :
      {known : Bool} {l : List Access} (f : Field) (v : ℕ)
      → can_use f known ≡ true
      → Typed hw old known l
      → Typed hw old known (load (8 * VirtioPci.size f) (reg hw f) v ∷ l)
  stored :
      {known : Bool} {l : List Access} (f : Field) (v : ℕ)
      → is_writable f ≡ true
      → can_use f known ≡ true
      → Typed hw old known l
      → Typed hw old (selected f v known) (store (8 * VirtioPci.size f) (reg hw f) v ∷ l)

module _ {D : Type 0} (bus : Bus D) (hw : Hw) (old : List Access) where
  picked :
      {known : Bool} {l : List Access}
      → Typed hw old known l
      → Typed hw old true (fence ∷ store 16 (reg hw queue_select) 0 ∷ l)
  picked h = fenced (stored queue_select 0 refl refl h)

  handshake-Typed :
      {known : Bool} (mask : ℕ → ℕ) (σ : World D)
      → Typed hw old known σ.log
      → Typed hw old known (handshake bus hw mask σ).1.log
  unfolding handshake get_device_features set_driver_features set_status get_status
  handshake-Typed mask σ h = loaded device_status _ refl (
      stored device_status _ refl refl (
        stored driver_feature _ refl refl (
          fenced (
            stored driver_feature_select _ refl refl (
              stored driver_feature _ refl refl (
                fenced (
                  stored driver_feature_select _ refl refl (
                    loaded device_feature _ refl (
                      stored device_feature_select _ refl refl (
                        loaded device_feature _ refl (
                          stored device_feature_select _ refl refl (
                            stored device_status _ refl refl (
                              stored device_status _ refl refl
                                (stored device_status _ refl refl h))))))))))))))

  go_live-Typed :
      {known : Bool} (status qsize : ℕ) (q : Queue) (σ : World D)
      → Typed hw old known σ.log
      → Typed hw old true (go_live bus hw status qsize q σ).1.log
  unfolding go_live set_queue_size disable_config_msix disable_queue_msix set_queue_addr
      set_queue_enable set_status
  go_live-Typed status qsize q σ h = stored device_status _ refl refl (
      stored queue_enable _ refl refl (
        picked (
          stored queue_device _ refl refl (
            stored queue_driver _ refl refl (
              stored queue_desc _ refl refl (
                picked (
                  stored queue_msix_vector _ refl refl (
                    picked (
                      fenced (
                        stored config_msix_vector _ refl refl
                          (stored queue_size _ refl refl (picked h))))))))))))

  prepare_queue-Typed :
      {known : Bool} (status qsize buf buf_len : ℕ) (q : Queue) (σ : World D)
      → Typed hw old known σ.log
      → Typed hw old true (prepare_queue bus hw status qsize buf buf_len q σ).1.log
  unfolding prepare_queue get_queue_size
  prepare_queue-Typed status qsize buf buf_len q σ h =
      let μ = get_queue_size bus hw 0 σ in
      let read : Typed hw old true μ.1.log = loaded queue_size _ refl (picked h) in
      let r = (vring_init q.vr buf buf_len qsize 0).0 in
      elim (Bool-cases (μ.0 == 0)) [
        | inl e ↦ rw e read
        | inr e ↦ rw e (elim (Bool-cases (ltb μ.0 qsize)) [
          | inl short ↦ rw short read
          | inr enough ↦ rw enough (elim (Bool-cases (is_zero r)) [
            | inl ready ↦ rw ready (go_live-Typed status qsize _ μ.1 read)
            | inr bad ↦ rw bad read
          ])
        ])
      ]

-- Whatever the device answers, on every return of the steps 1 to 8: each access that they make is a fence, a load or
-- a store of one whole field of `struct virtio_pci_common_cfg` at the width of its type; a field declared
-- read-only for the driver is never stored to; and a field about a specific virtqueue is accessed only
-- after queue 0 has been selected.
pub start-Typed :
    {D : Type 0} (bus : Bus D) (hw : Hw) (mask : ℕ → ℕ) (qsize buf buf_len : ℕ) (q : Queue)
    (σ : World D)
    → (known : Bool) × Typed hw σ.log known (start bus hw mask qsize buf buf_len q σ).1.log
unfolding start get_queue_enable
start-Typed bus hw mask qsize buf buf_len q σ =
    let shaken = handshake-Typed bus hw σ.log mask σ done in
    elim (Bool-cases (bit_and (handshake bus hw mask σ).0 stat_features_ok == 0)) [
      | inl refused ↦ rw refused (false, shaken)
      | inr agreed ↦
          let ε = get_queue_enable bus hw 0 (handshake bus hw mask σ).1 in
          let read : Typed hw σ.log true ε.1.log =
            loaded queue_enable _ refl (picked bus hw σ.log shaken) in
          rw agreed (elim (Bool-cases (ε.0 == 0)) [
            | inl off ↦
                rw off (true, prepare_queue-Typed bus hw σ.log _ qsize buf buf_len q ε.1 read)
            | inr on ↦ rw on (true, read)
          ])
    ]
