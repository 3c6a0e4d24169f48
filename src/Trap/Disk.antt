-- ===== src/Trap/Disk.antt =====
-- The disk's interrupt, from the trap to the acknowledgement.
use virtio_pci_simple_driver.Prelude.{ℕ, suc, ◌+◌, ◌%◌, ◌^◌, ◌≡◌, refl, ◌∷◌}
use virtio_pci_simple_driver.Bus.{Bus, World, load, store, fence, fenced}
use virtio_pci_simple_driver.Plic.{claim_addr, claim, complete}
use virtio_pci_simple_driver.VirtioPci.{Hw, clear_isr}
use virtio_pci_simple_driver.Blk.{Blk, Heap, ok, retired, blk_intr}
use virtio_pci_simple_driver.Blk.System.{System, Reach}
use virtio_pci_simple_driver.Blk.System.Progress.{intr_returns}
use virtio_pci_simple_driver.Trap.{
  handle_trap, handle_external_trap, dispatch, acknowledge, return_to,
}

-- A supervisor external interrupt for which the controller answers the disk's number, in any state that
-- the disk driver reaches: the trap returns to `sepc` with nothing left untaken in the used ring, having claimed
-- the interrupt, read the ISR register, passed a fence and one more for each entry taken, and completed that same interrupt, in this order.
pub handle_trap-disk :
    {D : Type 0} (bus : Bus D) (hw : Hw) (uart_base n sepc : ℕ)
    → {base : ℕ} (s : System) → Reach base s
    → (σ : World D) → (claim bus σ).0 ≡ 33
    → let (out, τ) = handle_trap bus hw uart_base (suc (suc n)) (2 ^ 63 + 9) sepc s.blk s.heap σ in
      (blk : Blk) × (heap : Heap) × (isr : ℕ) × (out ≡ ok (sepc, (blk, heap)))
      × (blk.used_idx ≡ blk.used.idx)
      × (τ.log
          ≡ store 32 claim_addr 33
            ∷ fenced
                (retired (suc (suc n)) s.blk s.heap)
                (fence ∷ load 32 hw.isr_cfg isr ∷ load 32 claim_addr 33 ∷ σ.log))
unfolding handle_trap handle_external_trap dispatch acknowledge return_to claim complete blk_intr
    clear_isr
handle_trap-disk bus hw uart_base n sepc s r σ e =
    let ((blk, heap), done, seen) = intr_returns r n in
    let cause = (bus.answer 32 hw.isr_cfg (bus.answer 32 claim_addr σ.dev).1).0 % 2 ^ 32 in
    rw (e, done) (blk, heap, cause, refl, seen, refl)
