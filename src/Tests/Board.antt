-- ===== src/Tests/Board.antt =====
-- The interrupt controllers and the console.
use virtio_pci_simple_driver.Prelude.{
  ℕ, bit_and, ◌+◌, ◌-◌, ◌*◌, ◌/◌, ◌%◌, ◌^◌, ◌≡◌, refl, arith, List, [], ◌∷◌,
}
use virtio_pci_simple_driver.Bus.{Bus, World, store}
use virtio_pci_simple_driver.Aplic.{enable_irq, get_addr, setie, sourcecfg, target}
use virtio_pci_simple_driver.Aplic.Enable.{enable_irq-stores}

abbrev silent : Bus (Unit {0})
silent = record { answer = λ w a d. (0x400, d); accept = λ w a v d. d }

abbrev fresh : World (Unit {0})
fresh = record { dev = tt; log = [] }

enable_irq-stores_example :
    (enable_irq silent 1 1 33 1 fresh).1.log
    ≡ store 32 (get_addr 1 + setie + 4 * (33 / 32)) (2 ^ (33 % 32))
      ∷ store 32 (get_addr 1 + sourcecfg + 4 * (33 - 1)) 6
      ∷ store 32 (get_addr 1 + target + 4 * (33 - 1)) 33
      ∷ []
enable_irq-stores_example = enable_irq-stores silent 1 1 33 1 fresh (omega arith) (omega arith)

-- A console at 0x1000_0000 with the bytes it has received and those it has been given to send.
abbrev pub head_of : List ℕ → ℕ
head_of [] = 0
head_of (c ∷ cs) = c

abbrev pub tail_of : List ℕ → List ℕ
tail_of [] = []
tail_of (c ∷ cs) = cs

abbrev pub line_status : List ℕ → ℕ
line_status [] = 0x60
line_status (c ∷ cs) = 0x61

abbrev pub as_bytes : List ℕ → List ℕ
as_bytes [] = []
as_bytes (c ∷ cs) = c % 2 ^ 8 ∷ as_bytes cs

pub console_idle : (r : List ℕ) → as_bytes r ≡ [] → bit_and (line_status r % 2 ^ 8) 1 ≡ 0
console_idle [] e = refl
console_idle (c ∷ cs) e = cc

pub console_ready :
    (r : List ℕ) (c : ℕ) (cs : List ℕ) → as_bytes r ≡ c ∷ cs → bit_and (line_status r % 2 ^ 8) 1 ≡ 1
console_ready [] c cs e = cc
console_ready (x ∷ xs) c cs e = refl

pub console_sends : (r : List ℕ) → bit_and (line_status r % 2 ^ 8) 0x20 ≡ 0x20
console_sends [] = refl
console_sends (x ∷ xs) = refl

pub console_take :
    (r : List ℕ) (c : ℕ) (cs : List ℕ)
    → as_bytes r ≡ c ∷ cs
    → (head_of r % 2 ^ 8 % 2 ^ 8 ≡ c) × (as_bytes (tail_of r) ≡ cs)
console_take [] c cs e = cc
console_take (x ∷ xs) c cs e = let at_head : x % 2 ^ 8 ≡ c = cc in (omega arith, cc)
