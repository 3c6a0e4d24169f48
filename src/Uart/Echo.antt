-- ===== src/Uart/Echo.antt =====
-- The interrupt handler of the console echoes what has arrived.
use mathlib.Core.List.{append-nil, append_assoc}
use virtio_pci_simple_driver.Prelude.{
  ℕ, zero, suc, ◌+◌, ◌<◌, ◌%◌, ◌^◌, ◌≡◌, refl, ap, sym, ◌∙◌, arith, bit_and, Option, none, some, ℤ,
  pos, negsuc, List, [], ◌∷◌, ◌++◌, length,
}
use virtio_pci_simple_driver.Bus.{Bus, World, Io, pure, ◌>>=◌}
use virtio_pci_simple_driver.Uart.{
  putc, getc, isr, lsr_offset, rhr_offset, thr_offset, lsr_thre, lsr_dr,
}

-- A 16550 at `base` that is always ready to send: what it has received and what it has been given to
-- send, the latest last. Of the line status only the bits DR and THRE are said to show anything: reading it changes
-- nothing and shows whether there is a next character; reading the holding register takes it.
pub record IsUart {D : Type 0} (bus : Bus D) (base : ℕ) (rx tx : D → List ℕ) : Type 0 where
  pub status_keeps : (d : D) → (bus.answer 8 (base + lsr_offset) d).1 ≡ d
  pub sends : (d : D) → bit_and ((bus.answer 8 (base + lsr_offset) d).0 % 2 ^ 8) lsr_thre ≡ lsr_thre
  pub idle :
      (d : D) → rx d ≡ [] → bit_and ((bus.answer 8 (base + lsr_offset) d).0 % 2 ^ 8) lsr_dr ≡ 0
  pub ready :
      (d : D) (c : ℕ) (cs : List ℕ)
      → rx d ≡ c ∷ cs
      → bit_and ((bus.answer 8 (base + lsr_offset) d).0 % 2 ^ 8) lsr_dr ≡ lsr_dr
  pub take :
      (d : D) (c : ℕ) (cs : List ℕ)
      → rx d ≡ c ∷ cs
      → let (a, d') = bus.answer 8 (base + rhr_offset) d in
        (a % 2 ^ 8 ≡ c) × (rx d' ≡ cs) × (tx d' ≡ tx d)
  pub send :
      (d : D) (c : ℕ)
      → let d' = bus.accept 8 (base + thr_offset) c d in (rx d' ≡ rx d) × (tx d' ≡ tx d ++ (c ∷ []))

module _ {D : Type 0} (bus : Bus D) (base : ℕ) where
  -- What the handler does once the character is sent, and with what `UartGetc` returns.
  unfoldable pub go_on : (n : ℕ) → Option ℕ → Io D (Option (Unit {0}))
  go_on n none = pure none
  go_on n (some c) = isr bus n base

  unfoldable pub respond : (n : ℕ) → ℤ → Io D (Option (Unit {0}))
  respond n (negsuc k) = pure (some tt)
  respond n (pos c) = putc bus (suc n) base c >>= go_on n

  pub isr-of :
      (n : ℕ) (σ : World D) (r : ℤ)
      → (getc bus base σ).0 ≡ r
      → isr bus (suc n) base σ ≡ respond n r (getc bus base σ).1
  unfolding isr respond go_on
  isr-of n σ r e = ap (λ r. respond n r (getc bus base σ).1) e

  respond-of :
      (n c : ℕ) (σ : World D) (r : Option ℕ)
      → (putc bus (suc n) base c σ).0 ≡ r
      → respond n (pos c) σ ≡ go_on n r (putc bus (suc n) base c σ).1
  unfolding respond
  respond-of n c σ r e = ap (λ r. go_on n r (putc bus (suc n) base c σ).1) e

module _ {D : Type 0} (bus : Bus D) (base : ℕ) (rx tx : D → List ℕ)
    (uart : IsUart bus base rx tx) where
  -- What `UartGetc` and `UartPutc` do there.
  getc-idle :
      (σ : World D)
      → rx σ.dev ≡ []
      → ((getc bus base σ).0 ≡ negsuc 0) × ((getc bus base σ).1.dev ≡ σ.dev)
  unfolding getc
  getc-idle σ e = rw (uart.idle σ.dev e) (refl, uart.status_keeps σ.dev)

  getc-ready :
      (σ : World D) (c : ℕ) (cs : List ℕ)
      → rx σ.dev ≡ c ∷ cs
      → let (out, τ) = getc bus base σ in (out ≡ pos c) × (rx τ.dev ≡ cs) × (tx τ.dev ≡ tx σ.dev)
  unfolding getc
  getc-ready σ c cs e =
      rw (uart.ready σ.dev c cs e, uart.status_keeps σ.dev)
        (let (v, r, t) = uart.take σ.dev c cs e in (ap pos v, r, t))

  putc-sends :
      (n c : ℕ) (σ : World D)
      → c < 2 ^ 8
      → let (out, τ) = putc bus (suc n) base c σ in
        (out ≡ some c) × (rx τ.dev ≡ rx σ.dev) × (tx τ.dev ≡ tx σ.dev ++ (c ∷ []))
  unfolding putc
  putc-sends n c σ small =
      let fit : c % 2 ^ 8 ≡ c = omega arith in
      rw (uart.sends σ.dev, uart.status_keeps σ.dev, fit)
        (let (r, t) = uart.send σ.dev c in (refl, r, t))

  is_byte : (d : D) (c : ℕ) (cs : List ℕ) → rx d ≡ c ∷ cs → c < 2 ^ 8
  is_byte d c cs e = omega (arith, (uart.take d c cs e).0)

  -- On a 16550 that is always ready to send: with more fuel than there are characters, `UartIsr`
  -- ends, has taken all that was received, and has sent it back in order.
  pub isr-echo :
      (n : ℕ) (cs : List ℕ) (σ : World D)
      → rx σ.dev ≡ cs
      → length cs < n
      → let (out, τ) = isr bus n base σ in
        (out ≡ some tt) × (rx τ.dev ≡ []) × (tx τ.dev ≡ tx σ.dev ++ cs)
  unfolding respond go_on
  isr-echo zero cs σ e lt = elim lt [ ]
  isr-echo (suc n) [] σ e lt =
      let (out, kept) = getc-idle σ e in
      rw (isr-of bus base n σ _ out, kept) (refl, e, sym (append-nil (tx σ.dev)))
  isr-echo (suc n) (c ∷ cs) σ e lt =
      let (got, r, t) = getc-ready σ c cs e in
      let (out, r', t') = putc-sends n c (getc bus base σ).1 (is_byte σ.dev c cs e) in
      let (done, empty, all) =
        isr-echo n cs (putc bus (suc n) base c (getc bus base σ).1).1 (r' ∙ r) (omega arith) in
      rw (isr-of bus base n σ _ got, respond-of bus base n c _ _ out)
        (
          done,
          empty,
          all
              ∙ ap (λ l. l ++ cs) (t' ∙ ap (λ l. l ++ (c ∷ [])) t)
              ∙ append_assoc (tx σ.dev) (c ∷ []) cs,
        )
