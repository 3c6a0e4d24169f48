-- ===== src/Tests/Found.antt =====
-- A disk that has been found, whose capability list is empty and whose registers are known.
use virtio_pci_simple_driver.Prelude.{◌≡◌, refl, List, some, ℤ, pos, ltb, if◌then◌else◌}
use virtio_pci_simple_driver.Bus.{Bus, Access}
use virtio_pci_simple_driver.Pci.{config_read8}
use virtio_pci_simple_driver.Caps.{read_caps, walk}
use virtio_pci_simple_driver.VirtioPci.{print_common_cfg}
use virtio_pci_simple_driver.Startup.Stores.{stores, Written}
use virtio_pci_simple_driver.Blk.{Statics, mask, init_at}
use virtio_pci_simple_driver.Blk.Enabled.{Enabled, init_at-Enabled}
use virtio_pci_simple_driver.Tests.Startup.{hw, willing, fresh, no_queue}

-- The configuration space below 0x4000_0000 reads 0.
abbrev found : Bus (Unit {0})
found = record {
  answer = λ w a d. if ltb a 0x4000_0000 then (0, d) else willing.answer w a d;
  accept = λ w a v d. d;
}

abbrev statics : Statics
statics = record { hw = hw; queue = no_queue; capacity = 0; s_off = 0 }

init_at-Enabled_example :
    let before = (print_common_cfg found hw (read_caps found 3 0x8000 hw fresh).1).1 in
    let (out, τ) = init_at found 3 0x8000_0000 0x8000 statics fresh in
    (r : ℤ) × (g' : Statics) × (l : List Access) × (out ≡ some (r, g'))
    × Written hw mask 128 before.log l (r, g'.queue)
    × Enabled r (stores l) (stores τ.log)
init_at-Enabled_example =
    init_at-Enabled found 3 0x8000_0000 0x8000 statics fresh (pos 0) hw
      (unfold read_caps in unfold walk in unfold config_read8 in refl)
