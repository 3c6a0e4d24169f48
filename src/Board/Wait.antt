-- ===== src/Board/Wait.antt =====
-- What a call and the trap that ends its wait do, and steps without anything that the call does not cause.
use virtio_pci_simple_driver.Prelude.{
  u64, u32, List, ◌*◌, ◌+◌, ◌^◌, ◌∷◌, ℕ, ◌≡◌, refl, ap, true, some,
}
use virtio_pci_simple_driver.Bus.{Bus, World, Access, load, store, fence}
use virtio_pci_simple_driver.Plic.{claim}
use virtio_pci_simple_driver.VirtioPci.{
  Hw, reg, select, queue_select, queue_notify_off, set_queue_notify, clear_isr,
}
use virtio_pci_simple_driver.Blk.{
  Blk, BlkBuf, Heap, ok, enqueue, fits, submit, begin_rw, intr, blk_intr,
}
use virtio_pci_simple_driver.Blk.Transfer.{Executes, Seen, called, returned, transfer}
use virtio_pci_simple_driver.Trap.{handle_trap, dispatch}
use virtio_pci_simple_driver.Trap.Around.{handled, around}
use virtio_pci_simple_driver.Board.{
  Machine, Step, call, refused, device, trap, back, change, Steps, here, and_then,
}

-- What has been seen after a whole request: its transfer, its call and its return.
abbrev pub served_by : BlkBuf → Seen → Seen
served_by b v = record { store = transfer b v.store; events = returned ∷ called b ∷ v.events }

pub submit-fits :
    (base ptr : ℕ) (blk : Blk) (b : BlkBuf)
    → fits blk b ≡ true
    → submit base ptr blk b ≡ some (enqueue base ptr blk b, record b { flag = 1 })
unfolding submit
submit-fits base ptr blk b e = rw e refl

-- The last accesses are the notification of queue 0, at the address of its register.
abbrev pub IsNotified : Hw → List Access → Type 0
IsNotified hw l =
    (off : ℕ) × (rest : List Access) × (l
      ≡ store 32 (u64 (hw.notify_cfg + u32 (off * hw.notify_off_multiplier))) 1
        ∷ load 16 (reg hw queue_notify_off) off
        ∷ fence
        ∷ store 16 (reg hw queue_select) 0
        ∷ rest)

module _ {D : Type 0} (bus : Bus D) (hw : Hw) (uart_base : ℕ) where
  pub begin_rw-some :
      (base ptr : ℕ) (blk : Blk) (b : BlkBuf) (σ : World D) (out : Blk × BlkBuf)
      → submit base ptr blk b ≡ some out
      → begin_rw bus hw base ptr blk b σ ≡ (some out, (begin_rw bus hw base ptr blk b σ).1)
  unfolding begin_rw
  begin_rw-some base ptr blk b σ out e = rw (begin_rw, e) refl

  pub begin_rw-IsNotified :
      (base ptr : ℕ) (blk : Blk) (b : BlkBuf) (σ : World D) (out : Blk × BlkBuf)
      → submit base ptr blk b ≡ some out
      → IsNotified hw (begin_rw bus hw base ptr blk b σ).1.log
  unfolding begin_rw set_queue_notify select
  begin_rw-IsNotified base ptr blk b σ out e = rw (begin_rw, e) (_, _, refl)

  -- The trap where the controller answers the disk's number.
  pub trap_runs :
      (n sepc : ℕ) (blk : Blk) (heap : Heap) (σ : World D) (after : Blk × Heap)
      → (claim bus σ).0 ≡ 33
      → intr n blk heap ≡ ok after
      → let run = handle_trap bus hw uart_base n (2 ^ 63 + 9) sepc blk heap σ in
        run ≡ (ok (sepc, after), run.1)
  unfolding handled dispatch claim blk_intr clear_isr
  trap_runs n sepc blk heap σ after e done =
      ap (λ o. (o, (handle_trap bus hw uart_base n (2 ^ 63 + 9) sepc blk heap σ).1))
        (around bus hw uart_base n sepc 33 blk heap σ after e done).0

-- A step in which the disk acts only when it has just been notified, and its interrupt is raised by its own doing, with
-- `raise` for what that does to the devices; the trap is an external interrupt for which the controller answers the
-- disk's number; and nothing else changes.
abbrev pub IsPrompt :
    {D : Type 0} (bus : Bus D) (hw : Hw) {uart_base base : ℕ} {exec : Executes}
    (raise : World D → World D) {m n : Machine D}
    → Step bus hw uart_base exec base m n
    → Type 0
IsPrompt bus hw raise (call p request e) = Unit
IsPrompt bus hw raise (refused ptr ph p e) = Unit
IsPrompt bus hw raise (device {σ} {τ} len ne r walked done) = IsNotified hw σ.log × (τ ≡ raise σ)
IsPrompt bus hw raise (trap {σ} n scause sepc sepc' e) =
    (scause ≡ 2 ^ 63 + 9) × ((claim bus σ).0 ≡ 33)
IsPrompt bus hw raise (back p down) = Unit
IsPrompt bus hw raise change = ⊥

abbrev pub ArePrompt :
    {D : Type 0} (bus : Bus D) (hw : Hw) {uart_base base : ℕ} {exec : Executes}
    (raise : World D → World D) {m n : Machine D}
    → Steps bus hw uart_base exec base m n
    → Type 0
ArePrompt bus hw raise here = Unit
ArePrompt bus hw raise (and_then ss s) = ArePrompt bus hw raise ss × IsPrompt bus hw raise s
