-- ===== src/Tests/Controller.antt =====
-- An interrupt controller and a console behind their addresses.
use virtio_pci_simple_driver.Prelude.{
  not, zero, suc, ℕ, ◌+◌, ◌*◌, ◌/◌, ◌%◌, ◌^◌, ◌<◌, ◌≡◌, ◌≢◌, inl, inr, refl, ◌∙◌, arith, Bool, true,
  false, ◌&&◌, ◌==◌, ==_refl, ==_ne, Bool-cases, ℕ_discrete, if◌then◌else◌, List, [], ◌∷◌, ◌++◌,
  ltb,
}
use virtio_pci_simple_driver.Prelude.Bits.{bit}
use virtio_pci_simple_driver.Bus.{Bus}
use virtio_pci_simple_driver.Pci.{pci_addr}
use virtio_pci_simple_driver.Plic.{plic0_addr, claim_addr, enable_base}
use virtio_pci_simple_driver.Plic.Controller.{IsPlic}
use virtio_pci_simple_driver.Uart.Echo.{IsUart}
use virtio_pci_simple_driver.Trap.Sources.{IsElsewhere}
use virtio_pci_simple_driver.Tests.Startup.{willing}
use virtio_pci_simple_driver.Tests.Board.{
  head_of, tail_of, line_status, as_bytes, console_idle, console_sends, console_ready, console_take,
}

pub record Board : Type 0 where
  pub rx : List ℕ
  pub tx : List ℕ
  pub waiting : ℕ
  pub held : ℕ → Bool
  pub reg : ℕ → ℕ

-- The board has every source but 0.
abbrev pub is_real : ℕ → Bool
is_real i = not (i == 0)

-- The enable word of a source, at its address.
abbrev pub is_on : Board → ℕ → Bool
is_on d i = is_real i && (bit (i % 32) (d.reg (enable_base + 4 * (i / 32 % 32)) % 2 ^ 32) == 1)

abbrev pub source : Board → ℕ
source d = d.waiting % 1024

abbrev pub chosen : Board → ℕ
chosen d = if is_on d (source d) then source d else 0

abbrev pub taken : Board → Board
taken d = record d {
  waiting = if chosen d == 0 then d.waiting else 0;
  held = λ i. if chosen d == 0 then d.held i else if i == chosen d then true else d.held i;
}

abbrev pub board : Bus Board
board = record {
  answer = λ w a d.
      if a == claim_addr
      then (chosen d, taken d)
      else if a == 0x1000_0005
      then (line_status d.rx, d)
      else if a == 0x1000_0000
      then (head_of d.rx % 2 ^ 8, record d { rx = tail_of d.rx })
      else if a == enable_base
      then (d.reg a / 2 * 2, d)
      else if ltb a 0x3000_0000
      then (d.reg a, d)
      else if a == pci_addr (2 ^ 15)
      then (0x1042_1af4, d)
      else if ltb a 0x4000_0000
      then (0, d)
      else ((willing.answer w a tt).0, d);
  accept = λ w a v d.
      if a == claim_addr
      then record d { held = λ i. if (i == v) && is_on d v then false else d.held i }
      else if a == 0x1000_0000
      then record d { tx = d.tx ++ (v ∷ []) }
      else record d { reg = λ b. if b == a then v else d.reg b };
}

abbrev pub AsBefore : (i : ℕ) (d d' : Board) → Type 0
AsBefore i d d' = (is_on d' i ≡ is_on d i) × (d'.held i ≡ d.held i)

-- Accesses at addresses other than the claim register's.
pub load_elsewhere : (w a i : ℕ) (d : Board) → a ≢ claim_addr → AsBefore i d (board.answer w a d).1
load_elsewhere w a i d ne = rw (==_ne _ _ ne) (elim (Bool-cases (a == 0x1000_0005)) [
  | inl e ↦ rw e (refl, refl)
  | inr e ↦ rw e (elim (Bool-cases (a == 0x1000_0000)) [
    | inl e' ↦ rw e' (refl, refl)
    | inr e' ↦ rw e' (elim (Bool-cases (a == enable_base)) [
      | inl w ↦ rw w (refl, refl)
      | inr w ↦ rw w (elim (Bool-cases (ltb a 0x3000_0000)) [
        | inl low ↦ rw low (refl, refl)
        | inr low ↦ rw low (elim (Bool-cases (a == pci_addr (2 ^ 15))) [
          | inl id ↦ rw id (refl, refl)
          | inr id ↦ rw id (elim (Bool-cases (ltb a 0x4000_0000)) [
            | inl cfg ↦ rw cfg (refl, refl)
            | inr cfg ↦ rw cfg (refl, refl)
          ])
        ])
      ])
    ])
  ])
])

pub store_elsewhere :
    (w a v i : ℕ) (d : Board)
    → a ≢ claim_addr
    → enable_base + 4 * (i / 32 % 32) ≢ a
    → AsBefore i d (board.accept w a v d)
store_elsewhere w a v i d ne apart = rw (==_ne _ _ ne) (elim (Bool-cases (a == 0x1000_0000)) [
  | inl e ↦ rw e (refl, refl)
  | inr e ↦ rw (e, ==_ne _ _ apart) (refl, refl)
])

-- The claim register.
pub chosen-lt : (d : Board) → chosen d < 1024
chosen-lt d = elim (Bool-cases (is_on d (source d))) [
  | inl e ↦ rw e (omega arith)
  | inr e ↦ rw e (omega arith)
]

pub chosen-none :
    (d : Board) → chosen d ≡ 0 → (i : ℕ) → i ≢ 0 → ((i == source d) && is_on d i) ≡ false
chosen-none d e i ne = elim (ℕ_discrete i (source d)) [
  | no other ↦ rw (==_ne _ _ other) refl
  | yes same ↦ elim (Bool-cases (is_on d (source d))) [
    | inl on ↦ let none_waits : source d ≡ 0 = rw on at e in elim (ne (same ∙ none_waits)) [ ]
    | inr off ↦ rw (same, ==_refl (source d), off) refl
  ]
]

pub chosen-some :
    (d : Board) → chosen d ≢ 0 → ((chosen d == source d) ≡ true) × (is_on d (chosen d) ≡ true)
chosen-some d ne = elim (Bool-cases (is_on d (source d))) [
  | inl on ↦ rw (on, ==_refl (source d)) (refl, on)
  | inr off ↦ elim (ne (rw off refl)) [ ]
]

-- The enable words.
pub word_of :
    (j v i : ℕ) (d : Board)
    → j < 32
    → i < 1024
    → v < 2 ^ 32
    → is_on (board.accept 32 (enable_base + 4 * j) v d) i
      ≡ (if i / 32 == j then is_real i && (bit (i % 32) v == 1) else is_on d i)
word_of j v i d small small' fit =
    let not_claim : enable_base + 4 * j ≢ claim_addr = omega arith in
    let not_uart : enable_base + 4 * j ≢ 0x1000_0000 = omega arith in
    let word : i / 32 % 32 ≡ i / 32 = omega arith in
    rw (==_ne _ _ not_claim, ==_ne _ _ not_uart, word)
      (elim (ℕ_discrete (i / 32) j) [
        | yes e ↦
            let whole : v % 2 ^ 32 ≡ v = omega arith in
            rw (e, ==_refl j, ==_refl (enable_base + 4 * j), whole) refl
        | no ne ↦
            let apart : enable_base + 4 * (i / 32) ≢ enable_base + 4 * j = omega (arith, ne) in
            rw (==_ne _ _ ne, ==_ne _ _ apart) refl
      ])

low_bit :
    (k x : ℕ) → (bit k (x / 2 * 2 % 2 ^ 32) == 1) ≡ (not (k == 0) && (bit k (x % 2 ^ 32) == 1))
low_bit zero x = let even : x / 2 * 2 % 2 ^ 32 % 2 ≡ 0 = omega arith in rw even refl
low_bit (suc k) x =
    let above : x / 2 * 2 % 2 ^ 32 / 2 ≡ x % 2 ^ 32 / 2 = omega arith in
    let later : (suc k == 0) ≡ false = ground arith in rw (above, later) refl

pub word_read :
    (i : ℕ) (d : Board)
    → i < 1024
    → (bit (i % 32) ((board.answer 32 (enable_base + 4 * (i / 32)) d).0 % 2 ^ 32) == 1) ≡ is_on d i
word_read i d small =
    let not_claim : enable_base + 4 * (i / 32) ≢ claim_addr = omega arith in
    let not_status : enable_base + 4 * (i / 32) ≢ 0x1000_0005 = omega arith in
    let not_uart : enable_base + 4 * (i / 32) ≢ 0x1000_0000 = omega arith in
    let word : i / 32 % 32 ≡ i / 32 = omega arith in
    let low : ltb (enable_base + 4 * (i / 32)) 0x3000_0000 ≡ true = ground arith in
    rw (==_ne _ _ not_claim, ==_ne _ _ not_status, ==_ne _ _ not_uart, low, word)
      (elim (ℕ_discrete (i / 32) 0) [
        | no ne ↦
            let apart : enable_base + 4 * (i / 32) ≢ enable_base = omega (arith, ne) in
            let there : (i == 0) ≡ false = ground (arith, ne) in rw (==_ne _ _ apart, there) refl
        | yes e ↦
            let first : enable_base + 4 * (i / 32) ≡ enable_base = omega (arith, e) in
            let small : i % 32 ≡ i = omega (arith, e) in
            rw (first, small) (low_bit i (d.reg enable_base))
      ])

pub on_real : (i : ℕ) (d : Board) → (is_real i && is_on d i) ≡ is_on d i
on_real i d = elim (Bool-cases (is_real i)) [ inl h ↦ rw h refl | inr h ↦ rw h refl ]

unfoldable pub board-IsPlic : IsPlic board
board-IsPlic = record {
  real = is_real;
  none_zero = refl;
  real_console = refl;
  real_disk = refl;
  enabled_real = on_real;
  pending = λ i d. i == source d;
  enabled = λ i d. is_on d i;
  active = λ i d. d.held i;
  number = chosen-lt;
  claim_none = chosen-none;
  claim_some = chosen-some;
  claim_active = λ i d. refl;
  complete_active = λ r i d. refl;
  claim_enabled = λ i d. refl;
  complete_enabled = λ r i d. refl;
  word_reads = word_read;
  word_keeps = λ j i d h. (load_elsewhere 32 (enable_base + 4 * j) i d (omega arith)).0;
  word_writes = word_of;
  priority_keeps =
      λ k v i d h. (store_elsewhere 32 (plic0_addr + k * 4) v i d (omega arith) (omega arith)).0;
  threshold_keeps =
      λ v i d. (store_elsewhere 32 (plic0_addr + 0x20_1000) v i d (omega arith) (omega arith)).0;
  load_outside = λ w a i d h. load_elsewhere w a i d (omega (arith, h));
  store_outside = λ w a v i d h. store_elsewhere w a v i d (omega (arith, h)) (omega (arith, h));
}

pub board-IsUart : IsUart board 0x1000_0000 (λ d. as_bytes d.rx) (λ d. d.tx)
board-IsUart = record {
  status_keeps = λ d. refl;
  sends = λ d. console_sends d.rx;
  idle = λ d e. console_idle d.rx e;
  ready = λ d c cs e. console_ready d.rx c cs e;
  take = λ d c cs e. let (h, t) = console_take d.rx c cs e in (h, t, refl);
  send = λ d c. (refl, refl);
}

pub board-IsElsewhere : IsElsewhere board (λ d. as_bytes d.rx) (λ d. d.tx)
board-IsElsewhere = record {
  claim_rx = λ d. refl;
  claim_tx = λ d. refl;
  complete_rx = λ v d. refl;
  complete_tx = λ v d. refl;
}
