-- ===== src/Tests/Devices.antt =====
-- The device back-ends and the orchestrator at concrete inputs.
use Prim.Native.String.{String}
use porth_core.Base.{ℕ, ◌+◌, ◌≡◌, refl, arith, true, false, none, some, List, [], ◌∷◌, Option}
use porth_core.Base.Int.{pos}
use porth_core.Device.{Device}
use porth_core.Phy.{new_phy}
use porth_core.Phy.Thermal.{Near}
use porth_core.Sim.{Sim, Rings, Turn}
use porth_core.Sim.Lattice.{InRange, thermal_rounds}
use porth_core.Vfio
use porth_core.Vfio.Ownership.{Accounted, create-Accounted}
use porth_core.Mock
use porth_core.Tool
use porth_core.Tool.Args.{launch, parse, main_}
use porth_core.Tool.PowerOff.{handle_stress-powers_off}

-- A card whose registers cannot be mapped.
abbrev card : Vfio.Os
card = record {
  open_container = some 3;
  api_version = true;
  iommu_exists = true;
  iommu_link = some 12;
  open_group = some 4;
  set_container = true;
  set_iommu = true;
  get_device_fd = some 5;
  get_region_info = true;
  region_size = 4096;
  mmap = none;
}

card_is_refused : (Vfio.create card).1 ≡ Vfio.thrown Vfio.no_mapping
unfolding Vfio.create Vfio.get_iommu_group Vfio.join_container Vfio.map_bar0
card_is_refused = refl

create-Accounted_example : Accounted (Vfio.create card)
create-Accounted_example = create-Accounted card

abbrev shm : Mock.Os
shm = record { shm_open = some 3; ftruncate = true; mmap = some 4096 }

abbrev registers : Device
registers = record {
  control = 1;
  status = 1;
  data_ptr = 4096;
  counter = 9;
  laser_temp = 43000;
  gan_voltage = 300000;
  rf_snr = pos 3000;
  safety_trip = 0;
}

-- A chip that is powered, and warm.
abbrev owner : Sim
owner = record {
  dev = registers;
  phy = record (new_phy 100 25) { current_temp_mc = 43000 };
  run_sim = true;
  inject_deadlock = false;
  corrupt_status = false;
  bus_hang = false;
  last_valid_shuttle = 4096;
}

owner-InRange : InRange owner
owner-InRange = record { volt = omega arith; warm = omega arith; cool = omega arith }

abbrev nowhere : Rings
nowhere _ = none

abbrev turns : List Turn
turns = record { memory = nowhere; draw = record { choice = 30; bit = 7 } } ∷ []

handle_stress-powers_off_example :
    (t : Sim) × (Tool.handle_stress (new_phy 100 25) true (some owner.dev) turns turns ≡ some t)
    × (t.dev.control ≡ 0)
    × (let last = thermal_rounds (101 + 4267) (record owner { dev = t.dev }) in
        (last.dev.gan_voltage ≡ 0) × Near 25000 last.phy)
handle_stress-powers_off_example =
    handle_stress-powers_off 100 25 true owner turns turns 4267 owner-InRange (omega arith)

abbrev stoull : String → Option ℕ
stoull _ = some 500

launch_is_told :
    parse stoull ("porth-sim-ctl" ∷ "launch" ∷ "chip0" ∷ "500" ∷ []) ≡ launch "chip0" 500
unfolding parse
launch_is_told = refl

-- A word that is no command ends like a success.
unknown_returns_0 : main_ stoull (λ _. false) ("porth-sim-ctl" ∷ "stop" ∷ "chip0" ∷ []) ≡ some 0
unfolding main_ parse
unknown_returns_0 = refl
