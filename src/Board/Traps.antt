-- ===== src/Board/Traps.antt =====
-- The board's traps, with the interrupt controller and the console behind their addresses.
use virtio_pci_simple_driver.Prelude.{
  ℕ, suc, ◌+◌, ◌/◌, ◌%◌, ◌^◌, ◌<◌, ◌≡◌, ◌⊎◌, inl, inr, ◌∙◌, ap, subst, bit_and, false, ◌||◌, ◌==◌,
  Bool-cases, List, length, some, pos,
}
use virtio_pci_simple_driver.Bus.{Bus, World}
use virtio_pci_simple_driver.Plic.Controller.{IsPlic, IsOutside}
use virtio_pci_simple_driver.VirtioPci.{Hw}
use virtio_pci_simple_driver.Uart.Echo.{IsUart}
use virtio_pci_simple_driver.Blk.{Blk, Heap, Run, Statics, ok, init}
use virtio_pci_simple_driver.Blk.Ready.{init-IsStart}
use virtio_pci_simple_driver.Blk.System.{System, Reach, start, later, serve}
use virtio_pci_simple_driver.Blk.Transfer
use virtio_pci_simple_driver.Blk.Transfer.{Executes, Store, Move, Moves, stay, then_move}
use virtio_pci_simple_driver.Trap.{handle_trap, irq_s_ext}
use virtio_pci_simple_driver.Trap.Sources.{IsElsewhere, Served, handle_trap-serves}
use virtio_pci_simple_driver.Board.{
  Machine, Step, call, refused, device, trap, back, change, Steps, here, and_then,
}
use virtio_pci_simple_driver.Board.Refines
use virtio_pci_simple_driver.Board.Refines.{Steps-Moves}

-- The states of the disk driver on the way are those of Blk.System.
Move-Reach :
    {exec : Executes} {base : ℕ} {m n : Transfer.Machine}
    → Move exec base m n
    → Reach base m.sys
    → Reach base n.sys
Move-Reach (Transfer.driver st ours) r = later r st
Move-Reach (Transfer.device len ne at walked done) r = later r (serve len 0 ne at)

Moves-Reach :
    {exec : Executes} {base : ℕ} {m n : Transfer.Machine}
    → Moves exec base m n
    → Reach base m.sys
    → Reach base n.sys
Moves-Reach stay r = r
Moves-Reach (then_move ms mv) r = Move-Reach mv (Moves-Reach ms r)

-- A trap of another cause that has come back has left the devices alone.
cause-of :
    {D : Type 0} (bus : Bus D) (hw : Hw) (uart_base n scause sepc sepc' : ℕ) (blk : Blk)
    (heap : Heap) (σ τ : World D) (after : Blk × Heap)
    → handle_trap bus hw uart_base n scause sepc blk heap σ ≡ (ok (sepc', after), τ)
    → (handle_trap bus hw uart_base n (2 ^ 63 + 9) sepc blk heap σ ≡ (ok (sepc', after), τ))
      ⊎ (σ ≡ τ)
unfolding handle_trap
cause-of bus hw uart_base n scause sepc sepc' blk heap σ τ after e =
    elim (Bool-cases (scause / 2 ^ 63 % 2 == 0)) [
      | inl h ↦ let never = ap (λ r. r.0) (rw h at e) in cc
      | inr h ↦
          let e' = rw h at e in
          elim (Bool-cases (bit_and scause 0xFF == irq_s_ext)) [
            | inl h' ↦ inl (rw h' at e')
            | inr h' ↦ inr (ap (λ r. r.1) (rw h' at e'))
          ]
    ]

-- What leaves every source enabled or not and claimed or not.
abbrev pub Steady : {D : Type 0} {bus : Bus D} (plic : IsPlic bus) (d d' : D) → Type 0
Steady plic d d' =
    (i : ℕ) → (plic.active i d' ≡ plic.active i d) × (plic.enabled i d' ≡ plic.enabled i d)

-- The console's source and the disk's are enabled, and nothing is claimed.
pub record IsCalm {D : Type 0} {bus : Bus D} (plic : IsPlic bus) (d : D) : Type 0 where
  pub two : (i : ℕ) → i < 1024 → plic.enabled i d ≡ ((i == 10) || (i == 33))
  pub inactive : (i : ℕ) → plic.active i d ≡ false

Steady-IsCalm :
    {D : Type 0} {bus : Bus D} (plic : IsPlic bus) {d d' : D}
    → Steady plic d d'
    → IsCalm plic d
    → IsCalm plic d'
Steady-IsCalm plic steady calm = record {
  two = λ i h. (steady i).1 ∙ calm.two i h;
  inactive = λ i. (steady i).0 ∙ calm.inactive i;
}

module _ {D : Type 0} {bus : Bus D} (plic : IsPlic bus) (rx : D → List ℕ) {hw : Hw}
    {uart_base base : ℕ} {exec : Executes} where
  -- A step whose accesses, the trap's apart, are steady, and whose trap has more fuel than the console has characters.
  abbrev pub IsSteady : {m n : Machine D} → Step bus hw uart_base exec base m n → Type 0
  IsSteady (call {σ} {τ} p request e) = Steady plic σ.dev τ.dev
  IsSteady (refused {m} {τ} ptr ph p e) = Steady plic m.world.dev τ.dev
  IsSteady (device {σ} {τ} len ne r walked done) = Steady plic σ.dev τ.dev
  IsSteady (trap {σ} n scause sepc sepc' e) = length (rx σ.dev) < suc (suc n)
  IsSteady (back p down) = Unit
  IsSteady (change {σ} {τ}) = Steady plic σ.dev τ.dev

  abbrev pub AreSteady : {m n : Machine D} → Steps bus hw uart_base exec base m n → Type 0
  AreSteady here = Unit
  AreSteady (and_then ss s) = AreSteady ss × IsSteady s

module _ {D : Type 0} {bus : Bus D} (plic : IsPlic bus) {rx tx : D → List ℕ} (hw : Hw)
    (uart_base base : ℕ) (exec : Executes) (outside : (k : ℕ) → k < 8 → IsOutside (uart_base + k))
    (isr_outside : IsOutside hw.isr_cfg) (uart : IsUart bus uart_base rx tx)
    (away : IsElsewhere bus rx tx) where
  trap-IsCalm :
      (n scause sepc sepc' : ℕ) (sys : System) (σ τ : World D) (after : Blk × Heap)
      → Reach base sys
      → handle_trap bus hw uart_base (suc (suc n)) scause sepc sys.blk sys.heap σ
        ≡ (ok (sepc', after), τ)
      → length (rx σ.dev) < suc (suc n)
      → IsCalm plic σ.dev
      → IsCalm plic τ.dev
  trap-IsCalm n scause sepc sepc' sys σ τ after r e enough calm =
      elim (cause-of bus hw uart_base (suc (suc n)) scause sepc sepc' sys.blk sys.heap σ τ after
        e) [
          | inr same ↦ subst (λ (w : World D). IsCalm plic w.dev) same calm
          | inl ran ↦
              let (_, _, _, inactive, same, _) =
                handle_trap-serves plic hw uart_base outside isr_outside uart away n sepc sys r σ
                  calm.two calm.inactive enough in
              subst (λ (o : Run (ℕ × (Blk × Heap)) × World D). IsCalm plic o.1.dev) ran
                (record { two = λ i h. same i ∙ calm.two i h; inactive = inactive })
        ]

  Step-IsCalm :
      {m n : Machine D} (s : Step bus hw uart_base exec base m n)
      → IsSteady plic rx s
      → Reach base m.sys
      → IsCalm plic m.world.dev
      → IsCalm plic n.world.dev
  Step-IsCalm (call p request e) now r calm = Steady-IsCalm plic now calm
  Step-IsCalm (refused ptr ph p e) now r calm = Steady-IsCalm plic now calm
  Step-IsCalm (device len ne at walked done) now r calm = Steady-IsCalm plic now calm
  Step-IsCalm (trap {sys} {σ} {τ} {after} n scause sepc sepc' e) now r calm =
      trap-IsCalm n scause sepc sepc' sys σ τ after r e now calm
  Step-IsCalm (back p down) now r calm = calm
  Step-IsCalm change now r calm = Steady-IsCalm plic now calm

  Steps-IsCalm :
      {m n : Machine D}
      → Reach base m.sys
      → (ss : Steps bus hw uart_base exec base m n) → AreSteady plic rx ss
      → IsCalm plic m.world.dev
      → IsCalm plic n.world.dev
  Steps-IsCalm r here steady calm = calm
  Steps-IsCalm r (and_then ss s) (before, now) calm =
      Step-IsCalm s now (Moves-Reach (Steps-Moves ss) r) (Steps-IsCalm r ss before calm)

module _ {D : Type 0} {bus : Bus D} (plic : IsPlic bus) {rx tx : D → List ℕ} (uart_base base : ℕ)
    (exec : Executes) (g' : Statics) (outside : (k : ℕ) → k < 8 → IsOutside (uart_base + k))
    (isr_outside : IsOutside g'.hw.isr_cfg) (uart : IsUart bus uart_base rx tx)
    (away : IsElsewhere bus rx tx) where
  -- From the first return of `virtio_pci_blk_init` with 0 on, with a console that is always ready to send, the console's
  -- registers and the ISR register outside the interrupt controller, the console's source and the disk's the
  -- enabled ones and none claimed: after any run of calls, the disk, traps of any cause and other changes of the
  -- devices, in which all but the traps leaves every source enabled or not and claimed or not and each trap
  -- has more fuel than the console has characters, a supervisor external interrupt with as much fuel returns to `sepc`
  -- and has served what was waiting: nothing, the console or the disk; and again the same two sources are
  -- enabled and none is claimed (where `gs_blk_buf` is page-aligned and below 2^63).
  pub trap_returns :
      (fuel buf : ℕ) (g : Statics) (σ₀ σ : World D) (heap : Heap) (store : Store)
      → buf % 4096 ≡ 0
      → buf < 2 ^ 63
      → (init bus fuel buf g σ₀).0 ≡ some (pos 0, g')
      → IsCalm plic σ.dev
      → (m : Machine D) (ss : Steps bus g'.hw uart_base exec base (Refines.ready g' heap store σ) m)
      → AreSteady plic rx ss
      → (n sepc : ℕ) → length (rx m.world.dev) < suc (suc n)
      → let s = m.sys in
        let (out, τ) =
          handle_trap bus g'.hw uart_base (suc (suc n)) (2 ^ 63 + 9) sepc s.blk s.heap m.world in
        (after : Blk × Heap) × (out ≡ ok (sepc, after))
        × IsCalm plic τ.dev
        × Served plic rx tx m.world.dev τ.dev (s.blk, s.heap) after
  trap_returns fuel buf g σ₀ σ heap store page low initialised calm m ss steady n sepc enough =
      let begun = start (init-IsStart bus fuel buf page low g g' heap σ₀ initialised).1 in
      let now =
        Steps-IsCalm plic g'.hw uart_base base exec outside isr_outside uart away begun ss steady
          calm in
      let (after, out, _, inactive, same, served) =
        handle_trap-serves plic g'.hw uart_base outside isr_outside uart away n sepc m.sys
          (Moves-Reach (Steps-Moves ss) begun) m.world now.two now.inactive enough in
      (after, out, record { two = λ i h. same i ∙ now.two i h; inactive = inactive }, served)
