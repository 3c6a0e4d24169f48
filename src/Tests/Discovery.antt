-- ===== src/Tests/Discovery.antt =====
-- A bus with one device, its BARs and its capability list.
use virtio_pci_simple_driver.Prelude.{
  ℕ, ◌+◌, ◌-◌, ◌*◌, ◌%◌, ◌^◌, ◌≡◌, ◌≢◌, refl, sym, subst, arith, some, none, List, [], ◌∷◌, ◌++◌,
  replicate, get_or, if◌then◌else◌, pos, negsuc,
}
use virtio_pci_simple_driver.Bus.{Bus, World}
use virtio_pci_simple_driver.Pci.{pci_addr, pcie0_mmio, device_probe}
use virtio_pci_simple_driver.Pci.Alloc.{alloc_all, total_pages, Apart, alloc_all-Apart}
use virtio_pci_simple_driver.Pci.Probe.{HasIds, LastOf, device_probe-LastOf}
use virtio_pci_simple_driver.VirtioPci.{Hw}
use virtio_pci_simple_driver.Caps.{cap_of_bytes, read_caps, missing}
use virtio_pci_simple_driver.Caps.Walk.{
  IsConfigSpace, Collected, cap_at, read_caps-Collected, read_caps_endless,
}

alloc_all-Apart_example :
    Apart
      (pcie0_mmio + 0)
      (pcie0_mmio + 0 + total_pages (128 ∷ 16384 ∷ []))
      (alloc_all 0 (128 ∷ 16384 ∷ []))
unfolding total_pages
alloc_all-Apart_example = alloc_all-Apart 0 (128 ∷ 16384 ∷ []) refl (omega arith)

-- Every word of the configuration space reads the same: device 0x1042 of vendor 0x1af4 everywhere.
abbrev crowd : Bus (Unit {0})
crowd = record { answer = λ w a d. (0x1042_1af4, d); accept = λ w a v d. d }

abbrev fresh : World (Unit {0})
fresh = record { dev = tt; log = [] }

crowd-HasIds : HasIds crowd (λ k. 0x1042_1af4)
crowd-HasIds = record { reads = λ k d h. refl }

device_probe-LastOf_example :
    LastOf
      (λ k. 0x1042_1af4)
      (0x1042 * 2 ^ 16 + 0x1af4)
      8160
      (device_probe crowd 0x1af4 0x1042 0 fresh).0.0
device_probe-LastOf_example =
    device_probe-LastOf crowd (λ k. 0x1042_1af4) 0x1af4 0x1042 0 fresh crowd-HasIds (omega arith)

-- A function at 2^15 whose capability list begins at 0x40, with the bytes that follow.
abbrev with_caps : List ℕ → Bus (Unit {0})
with_caps bytes = record {
  answer = λ w a d.
      (get_or (replicate 52 0 ++ (0x40 ∷ replicate 11 0) ++ bytes) (a - pci_addr (2 ^ 15)) 0, d);
  accept = λ w a v d. d;
}

abbrev byte_of : List ℕ → ℕ → ℕ
byte_of bytes a = ((with_caps bytes).answer 8 (pci_addr a) tt).0 % 2 ^ 8

abbrev quad_of : List ℕ → ℕ → ℕ
quad_of bytes a = ((with_caps bytes).answer 64 (pci_addr a) tt).0 % 2 ^ 64

with_caps-IsConfigSpace :
    (bytes : List ℕ) → IsConfigSpace (with_caps bytes) (byte_of bytes) (quad_of bytes)
with_caps-IsConfigSpace bytes = record { reads8 = λ a d. refl; reads64 = λ a d. refl }

-- An MSI-X capability, then the vendor capability of kind 1.
abbrev two_caps : List ℕ
two_caps =
    0x11 ∷ 0x50 ∷ replicate 14 0
    ++ (9 ∷ 0 ∷ 16 ∷ 1 ∷ 4 ∷ 0 ∷ 0 ∷ 0 ∷ 0 ∷ 0x20 ∷ 0 ∷ 0 ∷ 0 ∷ 1 ∷ 0 ∷ [])

-- A capability that points to itself.
abbrev own_next : List ℕ
own_next = 9 ∷ 0x40 ∷ replicate 14 0

abbrev no_hw : Hw
no_hw = record {
  bar = 0;
  use_msix = 0;
  notify_off_multiplier = 0;
  common_cfg = 0;
  isr_cfg = 0;
  device_cfg = 0;
  notify_cfg = 0;
}

read_caps-Collected_example :
    (new : Hw) × ((read_caps (with_caps two_caps) 3 (2 ^ 15) no_hw fresh).0
      ≡ some (if missing new then negsuc 0 else pos 0, new))
    × Collected (byte_of two_caps) (quad_of two_caps) (2 ^ 15) (0x40 ∷ 0x50 ∷ []) no_hw new
unfolding cap_of_bytes
read_caps-Collected_example =
    read_caps-Collected (byte_of two_caps) (quad_of two_caps) (2 ^ 15)
      (with_caps-IsConfigSpace two_caps) (0x40 ∷ 0x50 ∷ []) 3 no_hw fresh
      (refl, omega arith, (refl, omega arith, refl)) (omega arith)

own_next-onward :
    (p : ℕ)
    → p ≡ 0x40
    → (p ≢ 0) × ((cap_at (byte_of own_next) (quad_of own_next) (2 ^ 15) p).cap_next ≡ 0x40)
unfolding cap_of_bytes
own_next-onward p e =
    subst
      (λ p. (p ≢ 0) × ((cap_at (byte_of own_next) (quad_of own_next) (2 ^ 15) p).cap_next ≡ 0x40))
      (sym e) (omega arith, refl)

read_caps_endless_example : (read_caps (with_caps own_next) 1000 (2 ^ 15) no_hw fresh).0 ≡ none
read_caps_endless_example =
    read_caps_endless (byte_of own_next) (quad_of own_next) (2 ^ 15)
      (with_caps-IsConfigSpace own_next) (λ p. p ≡ 0x40) own_next-onward refl 1000 no_hw fresh
