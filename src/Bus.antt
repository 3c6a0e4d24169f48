-- ===== src/Bus.antt =====
-- Volatile accesses: the macros PCI_REG8 to PCI_REG64 of src/driver/pcie/pci.c and
-- src/driver/virtio/virtio-pci.c, UART_REG, PLIC_REG, APLIC_REG, and the fences of
-- include/riscv.h. What answers them is not code of the repository: it is the parameter `Bus`.
use virtio_pci_simple_driver.Prelude.{ℕ, zero, suc, ◌%◌, ◌^◌, List, ◌∷◌}

-- One access, with its width in bits, its address and the value that was read or written.
pub data Access : Type 0 where
  load store : (width addr val : ℕ) → Access
  fence : Access

-- What stands behind the addresses. A load may change the state of a device, and may answer anything.
pub record Bus (D : Type 0) : Type 0 where
  pub answer : (width addr : ℕ) → D → ℕ × D
  pub accept : (width addr val : ℕ) → D → D

-- The devices, and the accesses so far, the latest first.
pub record World (D : Type 0) : Type 0 where
  pub dev : D
  pub log : List Access

abbrev pub Io : Type 0 → Type 0 → Type 0
Io D A = World D → A × World D

module _ {D : Type 0} where
  abbrev pub pure : {A : Type 0} → A → Io D A
  pure a σ = (a, σ)

  infixl 5 ◌>>=◌ ◌>>◌
  abbrev pub ◌>>=◌ : {A B : Type 0} → Io D A → (A → Io D B) → Io D B
  ◌>>=◌ m f σ = f (m σ).0 (m σ).1

  abbrev pub ◌>>◌ : {B : Type 0} → Io D (Unit {0}) → Io D B → Io D B
  m >> k = m >>= λ _. k

  -- `dsb()`, `mb()` and `__sync_synchronize()`.
  abbrev pub barrier : Io D (Unit {0})
  barrier σ = (tt, record σ { log = fence ∷ σ.log })

-- A log with fences after it.
abbrev pub fenced : (n : ℕ) → List Access → List Access
fenced zero l = l
fenced (suc n) l = fence ∷ fenced n l

-- As many fences, one after the other.
abbrev pub fences : {D : Type 0} → (n : ℕ) → Io D (Unit {0})
fences n σ = (tt, record σ { log = fenced n σ.log })

module _ {D : Type 0} (bus : Bus D) where
  -- A read of `width` bits: what the bus answers, cut to that width.
  abbrev pub read : (width addr : ℕ) → Io D ℕ
  read width addr σ =
      let r = bus.answer width addr σ.dev in
      (r.0 % 2 ^ width, record { dev = r.1; log = load width addr (r.0 % 2 ^ width) ∷ σ.log })

  -- A write of `width` bits; C converts the value to that width.
  abbrev pub write : (width addr val : ℕ) → Io D (Unit {0})
  write width addr val σ = (
    tt,
    record {
      dev = bus.accept width addr (val % 2 ^ width) σ.dev;
      log = store width addr (val % 2 ^ width) ∷ σ.log;
    },
  )
