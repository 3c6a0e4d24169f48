-- ===== src/Platform/Boot.antt =====
-- Which interrupts the board has enabled once the disk is ready.
use virtio_pci_simple_driver.Prelude.{
  ℕ, ◌+◌, ◌-◌, ◌*◌, ◌/◌, ◌%◌, ◌^◌, ◌≤◌, ◌<◌, ◌≡◌, ◌≢◌, inl, inr, Bool-cases, ◌&&◌, ap, refl, sym,
  ◌∙◌, arith, Bool, true, false, ◌||◌, ◌==◌, ==_refl, ==_ne, ℕ_discrete, if◌then◌else◌, bit_or, u32,
}
use virtio_pci_simple_driver.Prelude.Bits.{bit, bit_or-lt}
use virtio_pci_simple_driver.Prelude.Tables.{bit-pow, bit-set, pow-lt_word}
use virtio_pci_simple_driver.Bus.{Bus, World}
use virtio_pci_simple_driver.Plic
use virtio_pci_simple_driver.Plic.{uart0_irq, pcie_irq_pinb, priority, threshold, enable_base}
use virtio_pci_simple_driver.Plic.Controller.{IsPlic}
use virtio_pci_simple_driver.Uart
use virtio_pci_simple_driver.Platform.{Hart, plt_virt_init, interrupts_init}

module _ {D : Type 0} {bus : Bus D} (plic : IsPlic bus) where
  -- A store to the console's registers.
  uart_store :
      (k v i : ℕ) (d : D) → plic.enabled i (bus.accept 8 (0x1000_0000 + k) v d) ≡ plic.enabled i d
  uart_store k v i d = (plic.store_outside 8 (0x1000_0000 + k) v i d (inr (omega arith))).0

  -- `UartInit` makes seven stores outside the controller.
  uart_init-enabled :
      (i : ℕ) (σ : World D)
      → plic.enabled i (Uart.init bus 0x1000_0000 σ).1.dev ≡ plic.enabled i σ.dev
  unfolding Uart.init
  uart_init-enabled i σ =
      uart_store 1 1 i _
      ∙ uart_store 2 7 i _
      ∙ uart_store 3 3 i _
      ∙ uart_store 1 0 i _
      ∙ uart_store 0 1 i _
      ∙ uart_store 3 128 i _
      ∙ uart_store 1 0 i _

  -- The first enable word, as `plic_init` writes it.
  console_bit : (i : ℕ) → i / 32 ≡ 0 → (bit (i % 32) (2 ^ 10) == 1) ≡ (i == 10)
  console_bit i e =
      let small : i % 32 ≡ i = omega (arith, e) in
      rw (small, bit-pow 10 i (omega arith) (omega (arith, e))) (ground arith)

  console_real : (i : ℕ) → (plic.real i && (i == 10)) ≡ (i == 10)
  console_real i = elim (ℕ_discrete i 10) [
    | yes e ↦ rw (e, plic.real_console) refl
    | no ne ↦
        rw (==_ne _ _ ne)
          (elim (Bool-cases (plic.real i)) [ inl h ↦ rw h refl | inr h ↦ rw h refl ])
  ]

  -- `plic_init` enables the console in the first word, and nothing else there.
  plic_init-enabled :
      (i : ℕ) (σ : World D)
      → i < 1024
      → plic.enabled i (Plic.init bus σ).1.dev
        ≡ (if i / 32 == 0 then i == 10 else plic.enabled i σ.dev)
  unfolding Plic.init
  plic_init-enabled i σ small =
      plic.word_writes 0 1024 i _ (omega arith) small (omega arith)
      ∙ rw
          (
            plic.threshold_keeps 0 i (bus.accept 32 (priority + 10 * 4) 1 σ.dev),
            plic.priority_keeps 10 1 i σ.dev (omega arith),
          )
          (elim (ℕ_discrete (i / 32) 0) [
            | yes e ↦ rw e (ap (λ x. plic.real i && x) (console_bit i e) ∙ console_real i)
            | no ne ↦ rw (==_ne _ _ ne) refl
          ])

  -- Setting a bit of an enable word.
  enabled_too :
      (irq i old : ℕ) (was : Bool)
      → (irq / 32 ≡ i / 32 → (bit (i % 32) old == 1) ≡ was)
      → (if i / 32 == irq / 32 then bit (i % 32) (bit_or old (2 ^ (irq % 32))) == 1 else was)
        ≡ (if i == irq then true else was)
  enabled_too irq i old was shown = elim (ℕ_discrete i irq) [
    | yes e ↦
        rw
          (
            e,
            ==_refl (irq / 32),
            ==_refl irq,
            bit-set (irq % 32) (irq % 32) old (omega arith) (omega arith),
            ==_refl (irq % 32),
          )
          refl
    | no ne ↦ elim (ℕ_discrete (irq / 32) (i / 32)) [
      | yes e ↦
          let other : i % 32 ≢ irq % 32 = omega (arith, e, ne) in
          rw
            (
              ==_ne _ _ ne,
              e,
              ==_refl (i / 32),
              bit-set (irq % 32) (i % 32) old (omega arith) (omega arith),
              ==_ne _ _ other,
            )
            (shown e)
      | no apart ↦ rw (==_ne _ _ ne, ==_ne _ _ (λ e. apart (sym e))) refl
    ]
  ]

  -- Sources that there are not stay as they are.
  real_too :
      (irq i new : ℕ) (was : Bool)
      → (plic.real i && was) ≡ was
      → plic.real irq ≡ true
      → (if i / 32 == irq / 32 then bit (i % 32) new == 1 else was)
        ≡ (if i == irq then true else was)
      → (if i / 32 == irq / 32 then plic.real i && (bit (i % 32) new == 1) else was)
        ≡ (if i == irq then true else was)
  real_too irq i new was kept there e = elim (Bool-cases (plic.real i)) [
    | inl h ↦ rw h e
    | inr h ↦
        let ne : i ≢ irq = λ (same : i ≡ irq). (let t = sym h ∙ ap plic.real same ∙ there in cc) in
        let off : was ≡ false = sym kept ∙ rw h refl in
        rw (h, off, ==_ne _ _ ne)
          (elim (Bool-cases (i / 32 == irq / 32)) [ inl c ↦ rw c refl | inr c ↦ rw c refl ])
  ]

  -- `plic_enable` enables one source more.
  plic_enable-enabled :
      (irq i : ℕ) (σ : World D)
      → irq < 1024
      → plic.real irq ≡ true
      → i < 1024
      → plic.enabled i (Plic.enable bus irq σ).1.dev
        ≡ (if i == irq then true else plic.enabled i σ.dev)
  unfolding Plic.enable
  plic_enable-enabled irq i σ small there small' =
      let place : u32 (enable_base + 4 * (irq / 32)) ≡ enable_base + 4 * (irq / 32) = omega arith in
      let shift : irq - 32 * (irq / 32) ≡ irq % 32 = omega arith in
      let prior = bus.accept 32 (priority + irq * 4) 1 σ.dev in
      let old = (bus.answer 32 (enable_base + 4 * (irq / 32)) prior).0 % 2 ^ 32 in
      let new = bit_or old (2 ^ (irq % 32)) in
      let whole : new % 2 ^ 32 ≡ new = omega (
        arith,
        bit_or-lt 32 old (2 ^ (irq % 32)) (omega arith) (pow-lt_word (irq % 32) (omega arith)),
      ) in
      let kept =
        plic.word_keeps (irq / 32) i prior (omega arith)
        ∙ plic.priority_keeps irq 1 i σ.dev small in
      rw (place, shift, whole)
        (plic.word_writes (irq / 32) new i _ (omega arith) small' (omega (arith, whole))
          ∙ rw kept (
              real_too irq i new (plic.enabled i σ.dev) (plic.enabled_real i σ.dev) there (
                enabled_too irq i old (plic.enabled i σ.dev) (λ e.
                  rw e
                    (plic.word_reads i prior small' ∙ plic.priority_keeps irq 1 i σ.dev small)))))

  the_two :
      (i : ℕ) (was : Bool)
      → (32 ≤ i → was ≡ false)
      → (if i == 33 then true else (if i / 32 == 0 then i == 10 else was))
        ≡ ((i == 10) || (i == 33))
  the_two i was off = ground arith

  -- From a controller whose sources 32 and up are off: after `plt_virt_init`, then anything that leaves every
  -- source enabled or disabled as it is, then the `plic_enable` with which the disk's start ends, the console's
  -- source and the disk's are enabled and no other below 1024 is.
  pub boot-enabled :
      (h : Hart) (σ τ : World D)
      → ((i : ℕ) → 32 ≤ i → i < 1024 → plic.enabled i σ.dev ≡ false)
      → ((i : ℕ) → i < 1024 → plic.enabled i τ.dev ≡ plic.enabled i (plt_virt_init bus h σ).1.dev)
      → (i : ℕ) → i < 1024
      → plic.enabled i (Plic.enable bus pcie_irq_pinb τ).1.dev
        ≡ ((i == uart0_irq) || (i == pcie_irq_pinb))
  unfolding plt_virt_init interrupts_init
  boot-enabled h σ τ off between i small =
      let started = plic_init-enabled i (Uart.init bus 0x1000_0000 σ).1 small in
      plic_enable-enabled 33 i τ (omega arith) plic.real_disk small
      ∙ rw (between i small, started, uart_init-enabled i σ)
          (the_two i (plic.enabled i σ.dev) (λ high. off i high small))
