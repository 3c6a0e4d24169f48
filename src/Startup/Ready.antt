-- ===== src/Startup/Ready.antt =====
-- The queue of a device that the initialisation has made ready.
use virtio_pci_simple_driver.Prelude.{
  ℕ, zero, suc, ◌%◌, ◌^◌, ◌<◌, ◌≡◌, refl, true, bit_and, ◌==◌, ltb, Bool-cases, inl, inr, pos,
  negsuc, ℤ,
}
use virtio_pci_simple_driver.Bus.{Bus, World}
use virtio_pci_simple_driver.Ring.{vring_init}
use virtio_pci_simple_driver.Ring.Layout.{IsLaidOut, vring_init-IsLaidOut}
use virtio_pci_simple_driver.VirtioPci.{Hw, get_queue_enable, get_queue_size}
use virtio_pci_simple_driver.Startup.{
  Queue, handshake, go_live, prepare_queue, start, stat_features_ok, is_zero,
}

pub eq_zero : (r : ℤ) → is_zero r ≡ true → r ≡ pos 0
eq_zero (pos zero) h = refl
eq_zero (pos (suc n)) h = cc
eq_zero (negsuc n) h = cc

module _ {D : Type 0} (bus : Bus D) (hw : Hw) (mask : ℕ → ℕ) (qsize buf buf_len : ℕ) (q : Queue)
    (page : buf % 4096 ≡ 0) (low : buf < 2 ^ 63) (small : qsize < 2 ^ 32) where
  abbrev LaidOutIfReady : ℤ × Queue → Type 0
  LaidOutIfReady out = out.0 ≡ pos 0 → IsLaidOut out.1.vr buf buf_len qsize 0

  prepare_queue-LaidOut :
      (status : ℕ) (σ : World D)
      → LaidOutIfReady (prepare_queue bus hw status qsize buf buf_len q σ).0
  unfolding prepare_queue go_live
  prepare_queue-LaidOut status σ =
      let μ = get_queue_size bus hw 0 σ in
      let r = (vring_init q.vr buf buf_len qsize 0).0 in
      elim (Bool-cases (μ.0 == 0)) [
        | inl e ↦ rw e (λ h. cc)
        | inr e ↦ rw e (elim (Bool-cases (ltb μ.0 qsize)) [
          | inl f ↦ rw f (λ h. cc)
          | inr f ↦ rw f (elim (Bool-cases (is_zero r)) [
            | inl ready ↦ rw ready (λ _.
                vring_init-IsLaidOut q.vr buf buf_len qsize 0 page low small (eq_zero r ready))
            | inr bad ↦ rw bad (λ h. vring_init-IsLaidOut q.vr buf buf_len qsize 0 page low small h)
          ])
        ])
      ]

  -- With a page-aligned buffer below 2^63 and a 32-bit queue size: a device whose initialisation
  -- returns 0 has its queue, with the size asked for, in three parts on page boundaries inside
  -- the driver's buffer.
  pub start-IsLaidOut :
      (σ : World D)
      → (start bus hw mask qsize buf buf_len q σ).0.0 ≡ pos 0
      → IsLaidOut (start bus hw mask qsize buf buf_len q σ).0.1.vr buf buf_len qsize 0
  unfolding start
  start-IsLaidOut σ =
      let status = (handshake bus hw mask σ).0 in
      let τ = (handshake bus hw mask σ).1 in
      elim (Bool-cases (bit_and status stat_features_ok == 0)) [
        | inl refused ↦ rw refused (λ h. cc)
        | inr agreed ↦ rw agreed (elim (Bool-cases ((get_queue_enable bus hw 0 τ).0 == 0)) [
          | inl idle ↦ rw idle (prepare_queue-LaidOut status (get_queue_enable bus hw 0 τ).1)
          | inr busy ↦ rw busy (λ h. cc)
        ])
      ]
