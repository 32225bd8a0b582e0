-- ===== src/Tests/Demo.antt =====
-- The demonstration's loops, and the watchdog over a device, at concrete inputs.
use porth_core.Base.{
  ℕ, ◌+◌, ◌≡◌, refl, arith, true, false, none, some, List, [], ◌∷◌, inl, inr, if◌then◌else◌, ltb,
}
use porth_core.Base.Int.{pos}
use porth_core.Device.{Device}
use porth_core.HugePage
use porth_core.Phy.{new_phy}
use porth_core.Phy.Thermal.{Near}
use porth_core.Ring
use porth_core.Ring.Inv.{IsSize, create-IsValid}
use porth_core.Telemetry.{fresh_stats}
use porth_core.Sim.{Sim}
use porth_core.Sim.Lattice.{thermal_rounds}
use porth_core.Metric.{new_metric}
use porth_core.Xdp.{Portal}
use porth_core.Driver.{Driver}
use porth_core.Driver.Accounting.{Linked}
use porth_core.Driver.Watchdog.{Round, watchdog_loop}
use porth_core.Base.{◌≤◌, ◌*◌}
use porth_core.Sim.{Turn}
use porth_core.Driver.ClosedLoop.{Closed, Event, device, look, act, happen_all}
use porth_core.Driver.ClosedLoop.Bound.{stays_bounded}
use porth_core.Driver.Shutdown.{watchdog_loop-cools}
use porth_core.Demo.{Cycle, handshake}
use porth_core.Demo.Main.{World}
use porth_core.Demo.Samples.{Ran, run_telemetry_stress_test-Ran}

abbrev page : HugePage.HugePage
page = record {
  ptr = 4096;
  total_size = 2097152;
  node = 0;
  is_numa_managed = true;
  is_mmaped = false;
}

four-IsSize : IsSize 4
four-IsSize = record { k = 2; power = refl; small = omega arith }

abbrev driver : Driver
driver = record {
  shuttle = record {
    memory = page;
    ring = some (Ring.create 4 none);
    descriptors = 0;
    device_iova = 0;
  };
  run_watchdog = true;
  watchdog_ready = true;
  stats = some fresh_stats;
}

driver-Linked : Linked 4 (Ring.create 4 none) fresh_stats driver
driver-Linked = record { ring = refl; stats = refl; valid = create-IsValid four-IsSize }

abbrev portal : Portal
portal = record { umem = 1; xsk = 1; xsk_fd = some 5; umem_start = 4096; umem_end = 8192 }

-- A packet at the card, and none; the device takes one descriptor in the second iteration.
abbrev cycles : List Cycle
cycles =
    record {
      taken_first = 0;
      nic = record {
        peek = some (record { addr = 4096; len = 64 });
        base = λ a. a;
        needs_wakeup = false;
        reserve = true;
      };
      taken_then = 0;
      elapsed = 240;
      temp = 25040;
    }
    ∷ record {
      taken_first = 1;
      nic = record { peek = none; base = λ a. a; needs_wakeup = true; reserve = true };
      taken_then = 0;
      elapsed = 250;
      temp = 25080;
    }
    ∷ []

run_telemetry_stress_test-Ran_example : Ran 4 portal 2 0 cycles fresh_stats driver (new_metric 2)
run_telemetry_stress_test-Ran_example =
    run_telemetry_stress_test-Ran portal 2 0 cycles (new_metric 2) four-IsSize driver-Linked
      (omega arith)

-- The status register is 0 in the first two loads.
abbrev wakes : ℕ → ℕ
wakes n = if ltb n 2 then 0 else 1

wakes_in_time : handshake wakes 5 0 ≡ (4, true)
unfolding handshake
wakes_in_time = refl

abbrev registers : Device
registers = record {
  control = 1;
  status = 1;
  data_ptr = 4096;
  counter = 9;
  laser_temp = 46000;
  gan_voltage = 300000;
  rf_snr = pos 3000;
  safety_trip = 0;
}

abbrev hot : Sim
hot = record {
  dev = registers;
  phy = record (new_phy 100 25) { current_temp_mc = 46000 };
  run_sim = true;
  inject_deadlock = false;
  corrupt_status = false;
  bus_hang = false;
  last_valid_shuttle = 4096;
}

abbrev rounds : List Round
rounds = record { run = true; temp = 44000 } ∷ record { run = true; temp = 46000 } ∷ []

watchdog_loop-cools_example :
    (regs : Device) × ((watchdog_loop (some hot.dev) driver rounds).1 ≡ some regs)
    × (let last = thermal_rounds (101 + 4267) (record hot { dev = regs }) in
        (last.dev.gan_voltage ≡ 0) × Near 25000 last.phy)
watchdog_loop-cools_example =
    watchdog_loop-cools hot driver rounds 46000 4267
      (refl, inr (omega arith, (refl, inl (omega arith, refl))))
      (record { volt = omega arith; warm = omega arith; cool = omega arith }) (omega arith)

abbrev powered : Closed
powered = record {
  sim = record hot {
    dev = record registers { laser_temp = 44990 };
    phy = record (new_phy 100 25) { current_temp_mc = 44990 };
  };
  driver = driver;
  seen = none;
}

abbrev turn : Turn
turn = record { memory = λ _. none; draw = record { choice = 30; bit = 7 } }

-- The watchdog looks, the device goes on, the watchdog acts and looks again.
abbrev order : List Event
order = look ∷ device turn ∷ act ∷ look ∷ device turn ∷ act ∷ device turn ∷ []

stays_bounded_example : (happen_all order powered).sim.phy.current_temp_mc ≤ 45000 + 25 * (2 + 101)
stays_bounded_example =
    stays_bounded 2 order powered (omega arith, (omega arith, (omega arith, tt)))
      (record { volt = omega arith; warm = omega arith; cool = omega arith }) refl (omega arith)
      refl refl

-- A run on the digital twin, with everything at hand.
abbrev lab : World
lab = record {
  has_argument = false;
  vfio = record {
    open_container = none;
    api_version = false;
    iommu_exists = false;
    iommu_link = none;
    open_group = none;
    set_container = false;
    set_iommu = false;
    get_device_fd = none;
    get_region_info = false;
    region_size = 0;
    mmap = none;
  };
  shm = record { shm_open = some 3; ftruncate = true; mmap = some 8192 };
  regs = registers;
  pages = record {
    numa_available = true;
    numa_alloc = some 65536;
    aligned_alloc = none;
    mmap = some 0x200000;
    mlock = true;
    ci = false;
  };
  descriptors = 7;
  umem = some 21;
  xsk = some 22;
  xsk_fd = some 5;
  status = wakes;
  hub = record { shm_open = some 6; ftruncate = true; fchmod = true; mmap = some 12288 };
  cycles = cycles;
  parked = 25100 ∷ [];
}
