-- ===== src/Trap/Sources.antt =====
-- An external interrupt on the board, whichever source the controller answers.
use virtio_pci_simple_driver.Prelude.{
  ℕ, suc, ◌+◌, ◌^◌, ◌<◌, ◌≡◌, ◌≢◌, inl, inr, refl, ap, ◌∙◌, arith, true, false, ◌&&◌, ◌||◌, ◌==◌,
  List, [], ◌++◌, length,
}
use virtio_pci_simple_driver.Bus.{Bus, World}
use virtio_pci_simple_driver.Plic.{claim_addr, claim}
use virtio_pci_simple_driver.Plic.Controller.{IsPlic, IsOutside}
use virtio_pci_simple_driver.VirtioPci.{Hw, clear_isr}
use virtio_pci_simple_driver.Blk.{Blk, Heap, ok, blk_intr}
use virtio_pci_simple_driver.Blk.System.{System, Reach, later, interrupt}
use virtio_pci_simple_driver.Blk.System.Progress.{intr_returns}
use virtio_pci_simple_driver.Trap.{handle_trap, dispatch, uart_isr}
use virtio_pci_simple_driver.Trap.Claims.{Settles, isr-keeps, none_left, which, answered}
use virtio_pci_simple_driver.Trap.Around.{claimed, handled, around}
use virtio_pci_simple_driver.Uart.{isr}
use virtio_pci_simple_driver.Uart.Echo.{IsUart, isr-echo}

-- The interrupt controller is another device than the console.
pub record IsElsewhere {D : Type 0} (bus : Bus D) (rx tx : D → List ℕ) : Type 0 where
  pub claim_rx : (d : D) → rx (bus.answer 32 claim_addr d).1 ≡ rx d
  pub claim_tx : (d : D) → tx (bus.answer 32 claim_addr d).1 ≡ tx d
  pub complete_rx : (v : ℕ) (d : D) → rx (bus.accept 32 claim_addr v d) ≡ rx d
  pub complete_tx : (v : ℕ) (d : D) → tx (bus.accept 32 claim_addr v d) ≡ tx d

-- What a trap from `σ` to `τ` has served: no enabled source was waiting, and the disk's state is what it was; or the
-- console was, and all it had received is sent back; or the disk was, and its used ring is taken.
pub data Served {D : Type 0} {bus : Bus D} (plic : IsPlic bus) (rx tx : D → List ℕ) (d d' : D)
    (s s' : Blk × Heap) : Type 0 where
  quiet :
      ((i : ℕ) → i ≢ 0 → (plic.pending i d && plic.enabled i d) ≡ false)
      → s' ≡ s
      → Served plic rx tx d d' s s'
  echoed :
      plic.pending 10 d ≡ true
      → s' ≡ s
      → rx d' ≡ []
      → tx d' ≡ tx d ++ rx d
      → Served plic rx tx d d' s s'
  completed : plic.pending 33 d ≡ true → s'.0.used_idx ≡ s'.0.used.idx → Served plic rx tx d d' s s'

module _ {D : Type 0} {bus : Bus D} (plic : IsPlic bus) (hw : Hw) (base : ℕ)
    (outside : (k : ℕ) → k < 8 → IsOutside (base + k)) (isr_outside : IsOutside hw.isr_cfg)
    {rx tx : D → List ℕ} (uart : IsUart bus base rx tx) (away : IsElsewhere bus rx tx) where
  -- A trap for each of them.
  trap_quiet :
      (n sepc : ℕ) (blk : Blk) (heap : Heap) (σ : World D)
      → (claim bus σ).0 ≡ 0
      → let (out, τ) = handle_trap bus hw base n (2 ^ 63 + 9) sepc blk heap σ in
        (out ≡ ok (sepc, (blk, heap))) × (τ.dev ≡ (bus.answer 32 claim_addr σ.dev).1)
  unfolding handled dispatch claim
  trap_quiet n sepc blk heap σ e = around bus hw base n sepc 0 blk heap σ (blk, heap) e refl

  trap_echoed :
      (n sepc : ℕ) (blk : Blk) (heap : Heap) (σ : World D)
      → (claim bus σ).0 ≡ 10
      → length (rx σ.dev) < n
      → let (out, τ) = handle_trap bus hw base n (2 ^ 63 + 9) sepc blk heap σ in
        (out ≡ ok (sepc, (blk, heap)))
        × (rx τ.dev ≡ [])
        × (tx τ.dev ≡ tx σ.dev ++ rx σ.dev)
        × Settles plic σ.dev τ.dev
  unfolding handled dispatch claim uart_isr
  trap_echoed n sepc blk heap σ e enough =
      let next = claimed bus 10 σ in
      let (done, empty, all) =
        isr-echo bus base rx tx uart n (rx σ.dev) next (away.claim_rx σ.dev) enough in
      let (out, dev) = around bus hw base n sepc 10 blk heap σ (blk, heap) e (rw done refl) in
      let after = (isr bus n base next).1 in
      (
        out,
        ap rx dev ∙ away.complete_rx 10 after.dev ∙ empty,
        ap tx dev
            ∙ away.complete_tx 10 after.dev
            ∙ all
            ∙ ap (λ l. l ++ rx σ.dev) (away.claim_tx σ.dev),
        λ i before. rw dev (
            none_left plic 10 i σ.dev after.dev (answered plic σ.dev 10 e) (omega arith)
              (λ k. isr-keeps plic base outside n k next) before),
      )

  trap_completed :
      (n sepc : ℕ) {start : ℕ} (s : System)
      → Reach start s
      → (σ : World D) → (claim bus σ).0 ≡ 33
      → let (out, τ) = handle_trap bus hw base (suc (suc n)) (2 ^ 63 + 9) sepc s.blk s.heap σ in
        (after : Blk × Heap) × (out ≡ ok (sepc, after))
        × (after.0.used_idx ≡ after.0.used.idx)
        × Reach start (record s { blk = after.0; heap = after.1 })
        × Settles plic σ.dev τ.dev
  unfolding handled dispatch claim blk_intr clear_isr
  trap_completed n sepc s r σ e =
      let ((blk, heap), done, seen) = intr_returns r n in
      let (out, dev) = around bus hw base (suc (suc n)) sepc 33 s.blk s.heap σ (blk, heap) e done in
      (
        (blk, heap),
        out,
        seen,
        later r (interrupt n done),
        λ i before. rw dev (
            none_left plic 33 i σ.dev _ (answered plic σ.dev 33 e) (omega arith)
              (λ k.
                let (on, a) =
                  plic.load_outside 32 hw.isr_cfg k (claimed bus 33 σ).dev isr_outside in
                (a, on))
              before),
      )

  -- A supervisor external interrupt on the board with the console's source and the disk's enabled and nothing claimed,
  -- in any state that the disk driver reaches, on a console that is always ready to send, with more fuel than it has
  -- characters: the trap returns to `sepc`, in a state that the disk driver reaches; again nothing is claimed and the same two are enabled; and either no
  -- enabled source was waiting and the disk's state is as it was, or the console was waiting, all it had received
  -- is sent back in order and the disk's state is as it was, or the disk was, and nothing is left untaken in its used ring.
  pub handle_trap-serves :
      (n sepc : ℕ) {start : ℕ} (s : System)
      → Reach start s
      → (σ : World D) → ((i : ℕ) → i < 1024 → plic.enabled i σ.dev ≡ ((i == 10) || (i == 33)))
      → ((i : ℕ) → plic.active i σ.dev ≡ false)
      → length (rx σ.dev) < suc (suc n)
      → let (out, τ) = handle_trap bus hw base (suc (suc n)) (2 ^ 63 + 9) sepc s.blk s.heap σ in
        (after : Blk × Heap) × (out ≡ ok (sepc, after))
        × Reach start (record s { blk = after.0; heap = after.1 })
        × ((i : ℕ) → plic.active i τ.dev ≡ false)
        × ((i : ℕ) → plic.enabled i τ.dev ≡ plic.enabled i σ.dev)
        × Served plic rx tx σ.dev τ.dev (s.blk, s.heap) after
  handle_trap-serves n sepc s r σ two inactive enough = elim (which plic σ.dev two) [
    | inl e ↦
        let (out, dev) = trap_quiet (suc (suc n)) sepc s.blk s.heap σ (unfold claim in rw e refl) in
        (
          (s.blk, s.heap),
          out,
          r,
          λ i. ap (plic.active i) dev ∙ plic.claim_active i σ.dev ∙ rw e (inactive i),
          λ i. ap (plic.enabled i) dev ∙ plic.claim_enabled i σ.dev,
          quiet (plic.claim_none σ.dev e) refl,
        )
    | inr (inl (e, waits)) ↦
        let (out, empty, all, settled) =
          trap_echoed (suc (suc n)) sepc s.blk s.heap σ (unfold claim in rw e refl) enough in
        (
          (s.blk, s.heap),
          out,
          r,
          λ i. (settled i (inactive i)).0,
          λ i. (settled i (inactive i)).1,
          echoed waits refl empty all,
        )
    | inr (inr (e, waits)) ↦
        let (after, out, seen, reached, settled) =
          trap_completed n sepc s r σ (unfold claim in rw e refl) in
        (
          after,
          out,
          reached,
          λ i. (settled i (inactive i)).0,
          λ i. (settled i (inactive i)).1,
          completed waits seen,
        )
  ]
