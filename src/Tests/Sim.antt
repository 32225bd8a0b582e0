-- ===== src/Tests/Sim.antt =====
-- The digital twin of include/porth/PorthSimDevice.hpp at concrete inputs.
use porth_core.Base.{
  ◌∙◌, All, ◌+◌, ◌^◌, ◌≡◌, ◌<◌, ◌⊎◌, refl, arith, List, [], ◌∷◌, ◌++◌, none, some, true, false,
  length, u64,
}
use porth_core.Base.Int.{pos, ◌≤ℤ◌}
use porth_core.Device.{Device, Register}
use porth_core.Ring
use porth_core.Ring.{Ring, Descriptor, blank}
use porth_core.Ring.Inv.{IsValid, create-IsValid}
use porth_core.Ring.Span.{contents}
use porth_core.Phy.{new_phy}
use porth_core.Sim.{
  Sim, Rings, Turn, Draw, wild, drained, process_dma, update_thermal_model, apply_chaos_effects,
  run_physics_loop,
}
use porth_core.Sim.Drain.{shuttle-IsSize, accepts_iff, process_dma_drains}
use porth_core.Sim.Lattice.{InRange, update_thermal_model-InRange}
use porth_core.Sim.Chaos.{ReadsAt, unarmed_wild}
use porth_core.Sim.Loop.{run_physics_loop-locked}
use porth_core.Device.Mmio.{Memory, load_register, write_register, load-write_apart}
use porth_core.Sim.Bus.{
  Bus, read_req, completion, write_mem, widen, read_flit, write_flit, meanwhile, flit_round_trip,
}

abbrev registers : Device
registers = record {
  control = 1;
  status = 0;
  data_ptr = 4096;
  counter = 7;
  laser_temp = 25000;
  gan_voltage = 400000;
  rf_snr = pos 3000;
  safety_trip = 0;
}

abbrev device : Sim
device = record {
  dev = registers;
  phy = new_phy 100 0;
  run_sim = true;
  inject_deadlock = false;
  corrupt_status = true;
  bus_hang = false;
  last_valid_shuttle = 4096;
}

abbrev detached_device : Sim
detached_device = record device { dev = record registers { data_ptr = 0 }; last_valid_shuttle = 0 }

abbrev new_ring : Ring
new_ring = Ring.create 1024 none

new_ring-IsValid : IsValid 1024 new_ring
new_ring-IsValid = create-IsValid shuttle-IsSize

abbrev memory : Rings
memory _ = some new_ring

abbrev nowhere : Rings
nowhere _ = none

-- A draw that flips bit 9 of the pointer.
abbrev flip : Draw
flip = record { choice = 31; bit = 9 }

abbrev turns : List Turn
turns = record { memory = memory; draw = flip } ∷ record { memory = nowhere; draw = flip } ∷ []

device-InRange : InRange device
device-InRange = record { volt = omega arith; warm = omega arith; cool = omega arith }

process_dma_drains_example :
    (last : Ring) × (process_dma memory device ≡ (
      record device {
        last_valid_shuttle = 4096;
        dev = record registers { counter = u64 (7 + length (contents 1024 new_ring)) };
      },
      drained 4096 last (contents 1024 new_ring),
    ))
    × (contents 1024 last ≡ [])
    × IsValid 1024 last
process_dma_drains_example =
    process_dma_drains memory device new_ring (ground (arith, accepts_iff device)) refl
      new_ring-IsValid (omega arith)

run_physics_loop-locked_example :
    ((run_physics_loop turns device).1.last_valid_shuttle ≡ 4096)
    × All (ReadsAt 4096) (run_physics_loop turns device).0
run_physics_loop-locked_example = run_physics_loop-locked turns device (omega arith)

update_thermal_model-InRange_example :
    let t = update_thermal_model device in
    InRange t
    × (t.dev.laser_temp ≡ t.phy.current_temp_mc)
    × (pos 1775 ≤ℤ t.dev.rf_snr)
    × (t.dev.rf_snr ≤ℤ pos 3000)
    × ((40000 < t.dev.laser_temp) ⊎ (t.dev.rf_snr ≡ pos 3000))
update_thermal_model-InRange_example = update_thermal_model-InRange device device-InRange

abbrev powered_off : Sim
powered_off = record device { dev = record registers { control = 0 } }

unarmed_wild_example :
    let (t, dma) = process_dma nowhere (apply_chaos_effects flip detached_device) in
    (dma ≡ wild (2 ^ 9)) × (t.last_valid_shuttle ≡ 2 ^ 9)
unarmed_wild_example =
    unarmed_wild nowhere flip detached_device refl refl refl (omega arith) (omega arith) refl

abbrev bus : Bus
bus = record {
  regs = λ _. 0;
  bus_hang = true;
  log_open = true;
  tlp_log = [];
  slept_ms = 0;
  delays = 0;
}

-- What a round of the physics loop writes meanwhile.
abbrev round_writes : Memory → Memory
round_writes m =
    write_register Register.laser_temp 25025
      (write_register Register.gan_voltage 4000 (write_register Register.status 1 m))

round_leaves_control :
    (m : Memory)
    → load_register Register.control (round_writes m) ≡ load_register Register.control m
round_leaves_control m =
    load-write_apart Register.laser_temp Register.control 25025 _ refl
    ∙ load-write_apart Register.gan_voltage Register.control 4000 _ refl
    ∙ load-write_apart Register.status Register.control 1 m refl

flit_round_trip_example :
    let (got, c) =
      read_flit Register.control 0 (meanwhile round_writes (write_flit Register.control 0 1 bus)) in
    (got ≡ 1)
    × (c.tlp_log
        ≡ []
          ++ record { kind = write_mem; addr = 0; payload = widen Register.control 1 }
            ∷ record { kind = read_req; addr = 0; payload = 0 }
            ∷ record { kind = completion; addr = 0; payload = widen Register.control 1 }
            ∷ [])
    × (c.delays ≡ 2)
    × (c.slept_ms ≡ 200)
flit_round_trip_example =
    flit_round_trip Register.control 0 1 bus round_writes (omega arith) refl round_leaves_control
