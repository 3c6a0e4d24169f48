-- ===== src/Tests/Console.antt =====
-- A console that is slow to send.
use virtio_pci_simple_driver.Prelude.{
  ℕ, zero, suc, ◌%◌, ◌^◌, ◌≡◌, refl, arith, some, List, [], ◌∷◌, ◌++◌, ◌==◌, if◌then◌else◌,
}
use virtio_pci_simple_driver.Bus.{Bus, World}
use virtio_pci_simple_driver.Uart.{putc}
use virtio_pci_simple_driver.Uart.Wait.{IsBusyUart, putc-waits}

-- A transmitter with a count of the reads of the line status for which it is busy. What is stored then is lost.
abbrev line_busy : ℕ → ℕ
line_busy zero = 0x60
line_busy (suc k) = 0

abbrev one_less : ℕ → ℕ
one_less zero = 0
one_less (suc k) = k

abbrev slow : Bus (ℕ × List ℕ)
slow = record {
  answer = λ w a d. (line_busy d.0, (one_less d.0, d.1));
  accept = λ w a v d. (d.0, if d.0 == 0 then d.1 ++ (v ∷ []) else d.1);
}

slow-IsBusyUart : IsBusyUart slow 0x1000_0000 (λ d. d.0) (λ d. d.1)
slow-IsBusyUart = record {
  busy = λ d k e. rw e (refl, refl, refl);
  free = λ d e. rw e (refl, refl, refl);
  send = λ d c e. rw e refl;
}

abbrev sending : World (ℕ × List ℕ)
sending = record { dev = (5, []); log = [] }

putc-waits_example :
    let (out, τ) = putc slow 6 0x1000_0000 0x161 sending in
    (out ≡ some 0x161) × (τ.dev.1 ≡ 0x161 % 2 ^ 8 ∷ [])
putc-waits_example =
    putc-waits slow 0x1000_0000 0x161 (λ d. d.0) (λ d. d.1) slow-IsBusyUart 6 sending (omega arith)
