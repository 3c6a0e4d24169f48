-- ===== src/Pci/Probe.antt =====
-- `pci_device_probe`: which device it finds.
use native.Mathlib.Decide.{ℕ_discrete}
use virtio_pci_simple_driver.Prelude.{
  ℕ, zero, suc, ◌+◌, ◌*◌, ◌%◌, ◌^◌, ◌<◌, ◌≡◌, ◌≢◌, ◌⊎◌, inl, inr, refl, arith, bit_or, ◌==◌, ==_iff,
  if◌then◌else◌, Bool-cases,
}
use virtio_pci_simple_driver.Prelude.Bits.{bit_or_fields, bit_or-zero}
use virtio_pci_simple_driver.Bus.{Bus, World}
use virtio_pci_simple_driver.Pci.{
  pci_addr, ecam_offset, probe_device, probe_devices, probe_buses, device_probe,
}

-- Functions sit at multiples of 2^15 in the configuration space: 32 devices to a bus.
pub ecam_offset_lem : (b d : ℕ) → d < 32 → ecam_offset b d ≡ (b * 32 + d) * 2 ^ 15
unfolding ecam_offset
ecam_offset_lem b d h = omega (
  arith,
  bit_or_fields 20 b (d * 2 ^ 15) (omega arith),
  bit_or-zero (bit_or (b * 2 ^ 20) (d * 2 ^ 15)),
  bit_or-zero (bit_or (bit_or (b * 2 ^ 20) (d * 2 ^ 15)) 0),
)

-- What the scan relies on: the identification word of each of the 255 * 32 devices reads the same
-- in every state of the bus, `ids k` for device `k` (all ones, where none is).
pub record HasIds {D : Type 0} (bus : Bus D) (ids : ℕ → ℕ) : Type 0 where
  pub reads :
      (k : ℕ) (dev : D) → k < 8160 → (bus.answer 32 (pci_addr (k * 2 ^ 15)) dev).0 % 2 ^ 32 ≡ ids k

-- `ret` is the offset of the last of the first `n` devices that has the identification `id`, or 0
-- where none has.
abbrev pub LastOf : (ids : ℕ → ℕ) (id n ret : ℕ) → Type 0
LastOf ids id n ret =
    ((ret ≡ 0) × ((k : ℕ) → k < n → ids k ≢ id))
    ⊎ ((k : ℕ) × (k < n)
        × (ret ≡ k * 2 ^ 15)
        × (ids k ≡ id)
        × ((j : ℕ) → k < j → j < n → ids j ≢ id))

LastOf-suc :
    (ids : ℕ → ℕ) (id n ret : ℕ)
    → LastOf ids id n ret
    → LastOf ids id (suc n) (if ids n == id then n * 2 ^ 15 else ret)
LastOf-suc ids id n ret h = elim (Bool-cases (ids n == id)) [
  | inl hit ↦
      rw hit (inr (n, omega arith, refl, (==_iff (ids n) id).0 hit, λ j p q. absurd (omega arith)))
  | inr miss ↦ rw miss (elim h [
    | inl (z, none_before) ↦ inl (
      z,
      λ k p. elim (ℕ_discrete k n) [
        | yes e ↦ rw e (ground arith)
        | no ne ↦ none_before k (omega arith)
      ],
    )
    | inr (k, p, at, same, later) ↦ inr (
      k,
      omega arith,
      at,
      same,
      λ j q r. elim (ℕ_discrete j n) [
        | yes e ↦ rw e (ground arith)
        | no ne ↦ later j q (omega arith)
      ],
    )
  ])
]

module _ {D : Type 0} {bus : Bus D} {ids : ℕ → ℕ} (has : HasIds bus ids) (id : ℕ) where
  probe_device-LastOf :
      (b d ret s_off : ℕ) (σ : World D)
      → d < 32
      → b * 32 + d < 8160
      → LastOf ids id (b * 32 + d) ret
      → LastOf ids id (suc (b * 32 + d)) (probe_device bus id (ecam_offset b d) (ret, s_off) σ).0.0
  unfolding probe_device
  probe_device-LastOf b d ret s_off σ in_bus in_range h =
      rw (ecam_offset_lem b d in_bus, has.reads (b * 32 + d) σ.dev in_range)
        (elim (Bool-cases (ids (b * 32 + d) == id)) [
          | inl hit ↦ rw hit (rw hit at (LastOf-suc ids id (b * 32 + d) ret h))
          | inr miss ↦ rw miss (rw miss at (LastOf-suc ids id (b * 32 + d) ret h))
        ])

  probe_devices-LastOf :
      (n b d ret s_off : ℕ) (σ : World D)
      → d + n ≡ 32
      → b < 255
      → LastOf ids id (b * 32 + d) ret
      → LastOf ids id (suc b * 32) (probe_devices bus n id b d (ret, s_off) σ).0.0
  unfolding probe_devices
  probe_devices-LastOf zero b d ret s_off σ e in_range h =
      let e' : suc b * 32 ≡ b * 32 + d = omega arith in rw e' h
  probe_devices-LastOf (suc n) b d ret s_off σ e in_range h =
      let step = probe_device-LastOf b d ret s_off σ (omega arith) (omega arith) h in
      let e' : suc (b * 32 + d) ≡ b * 32 + (d + 1) = omega arith in
      probe_devices-LastOf n b (d + 1) _ _ _ (omega arith) in_range (rw e' at step)

  probe_buses-LastOf :
      (n b ret s_off : ℕ) (σ : World D)
      → b + n ≡ 255
      → LastOf ids id (b * 32) ret
      → LastOf ids id 8160 (probe_buses bus n id b (ret, s_off) σ).0.0
  unfolding probe_buses
  probe_buses-LastOf zero b ret s_off σ e h = let e' : b * 32 ≡ 8160 = omega arith in rw e' at h
  probe_buses-LastOf (suc n) b ret s_off σ e h =
      let start : b * 32 ≡ b * 32 + 0 = omega arith in
      let step = probe_devices-LastOf 32 b 0 ret s_off σ refl (omega arith) (rw start at h) in
      let e' : suc b * 32 ≡ (b + 1) * 32 = omega arith in
      probe_buses-LastOf n (b + 1) _ _ _ (omega arith) (rw e' at step)

-- Where the identification words of the devices read the same at all times, `pci_device_probe`
-- returns the configuration-space offset of the last device, in the order of the scan over buses
-- 0 to 254, whose identification is the vendor and device wanted, and 0 where there is none;
-- whatever the devices answer on all other registers.
pub device_probe-LastOf :
    {D : Type 0} (bus : Bus D) (ids : ℕ → ℕ) (vendor_id device_id s_off : ℕ) (σ : World D)
    → HasIds bus ids
    → vendor_id < 2 ^ 16
    → LastOf ids
        (device_id * 2 ^ 16 + vendor_id)
        8160
        (device_probe bus vendor_id device_id s_off σ).0.0
unfolding device_probe
device_probe-LastOf bus ids vendor_id device_id s_off σ has small =
    rw (bit_or_fields 16 device_id vendor_id small) (
      probe_buses-LastOf has (device_id * 2 ^ 16 + vendor_id) 255 0 0 s_off σ refl
        (inl (refl, λ k p. absurd (omega arith))))
