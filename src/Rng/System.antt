-- ===== src/Rng/System.antt =====
-- The entropy driver with its device: `virtio_pci_rng_read` and the device behind the used ring, as steps in any order.
-- `look` and `take` are the polling loop: its test that finds nothing, and its end with what stands behind it.
pub mod Stage
pub mod Stream
pub mod Reads
use virtio_pci_simple_driver.Prelude.{
  ℕ, ◌+◌, ◌%◌, ◌/◌, ◌^◌, ◌≤◌, ◌<◌, ◌≡◌, ◌≢◌, Option, some, none, List, ◌∷◌, u16, set, get_elem?,
  length,
}
use virtio_pci_simple_driver.Ring.{Desc, Used, UsedElem}
use virtio_pci_simple_driver.Prelude.Memory.{Bytes, copy}
use virtio_pci_simple_driver.Rng.{Rng, submit, is_waiting, finish}

-- `polling buf len`: `virtio_pci_rng_read` is in its loop.
pub data Phase : Type 0 where
  idle : Phase
  polling : (buf len : ℕ) → Phase

-- A read that has returned `got`.
pub record Read : Type 0 where
  pub buf : ℕ
  pub len : ℕ
  pub got : ℕ

-- `served` is the device's own index into the available ring, `drawn` how many bytes it has taken from
-- its source; `reads` are those that have returned, the latest first.
pub record Machine : Type 0 where
  pub rng : Rng
  pub served : ℕ
  pub phase : Phase
  pub mem : Bytes
  pub drawn : ℕ
  pub reads : List Read

-- The device puts a chain into the used ring.
abbrev pub used_more : Used → (head n : ℕ) → Used
used_more used head n = record used {
  ring = set used.ring (used.idx % 8) (record { id = head; len = n });
  idx = u16 (used.idx + 1);
}

-- `deliver` is the device: it takes the next head of the available ring, and writes at least one and at most
-- as many bytes as fit the descriptor, the next of its source. The buffers lie outside the rings.
pub data Step (source : Bytes) : Machine → Machine → Type 0 where
  begin :
      {m : Machine} (buf len : ℕ)
      → m.phase ≡ idle
      → buf < 2 ^ 64
      → 0 < len
      → len < 2 ^ 32
      → Step source m (record m { rng = submit m.rng buf len; phase = polling buf len })
  look :
      {m : Machine} {buf len : ℕ}
      → m.phase ≡ polling buf len
      → is_waiting m.rng m.rng.used ≡ none
      → Step source m m
  deliver :
      {m : Machine} {head : ℕ} {d : Desc} (n : ℕ)
      → m.served ≢ m.rng.avail.idx
      → get_elem? m.rng.avail.ring (m.served % 8) ≡ some head
      → get_elem? m.rng.desc head ≡ some d
      → d.flags / 2 % 2 ≡ 1
      → 0 < n
      → n ≤ d.len
      → Step source m (record m {
        rng = record m.rng { used = used_more m.rng.used head n };
        served = u16 (m.served + 1);
        mem = copy n source m.drawn m.mem d.addr;
        drawn = m.drawn + n;
      })
  take :
      {m : Machine} {buf len got : ℕ} {rng' rng'' : Rng}
      → m.phase ≡ polling buf len
      → is_waiting m.rng m.rng.used ≡ some rng'
      → finish rng' ≡ some (got, rng'')
      → Step source m (record m {
        rng = rng'';
        phase = idle;
        reads = record { buf = buf; len = len; got = got } ∷ m.reads;
      })

pub data Steps (source : Bytes) : Machine → Machine → Type 0 where
  stay : {m : Machine} → Steps source m m
  then_step : {l m n : Machine} → Steps source l m → Step source m n → Steps source l n

-- The queue is that of the driver, and its parts have their lengths.
pub record IsSized (rng : Rng) : Type 0 where
  pub queue : rng.vr.size ≡ 8
  pub desc_len : length rng.desc ≡ 8
  pub avail_len : length rng.avail.ring ≡ 8
  pub used_len : length rng.used.ring ≡ 8

-- As `virtio_pci_rng_init` leaves it: nothing under way, nothing to take, nothing drawn or read.
pub record IsStart (m : Machine) : Type 0 where
  pub sized : IsSized m.rng
  pub at_rest : m.phase ≡ idle
  pub taken : m.rng.avail.idx ≡ m.served
  pub seen : m.rng.used_idx ≡ m.rng.used.idx
  pub none_drawn : m.drawn ≡ 0
  pub none_read : m.reads ≡ List.[]
