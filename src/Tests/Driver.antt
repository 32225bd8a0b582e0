-- ===== src/Tests/Driver.antt =====
-- The driver, its watchdog and the sentinel of include/porth/PorthDriver.hpp and PorthSentinel.hpp at concrete inputs.
use porth_core.Base.{
  if◌then◌else◌, All, ℕ, ◌*◌, ◌≡◌, ◌⊎◌, refl, arith, List, [], ◌∷◌, none, some, true, false,
}
use porth_core.Base.Int.{pos}
use porth_core.Device.{Device}
use porth_core.HugePage
use porth_core.HugePage.{Os, built}
use porth_core.Ring
use porth_core.Ring.{Ring, Descriptor, blank}
use porth_core.Ring.Inv.{IsSize, create-IsValid}
use porth_core.Ring.Span.{contents}
use porth_core.Shuttle
use porth_core.Shuttle.{Shuttle}
use porth_core.Telemetry.{fresh_stats}
use porth_core.Phy.{new_phy}
use porth_core.Sim.{Sim, idle, drained, run_physics_loop}
use porth_core.Driver
use porth_core.Driver.{
  Driver, Status, success, full, built_driver, transmit_all, set_stats_link, destroy,
}
use porth_core.Driver.Accounting.{Fits, Burst, transmit_all-Burst}
use porth_core.Driver.EndToEnd.{exchange, delivered, detached}
use porth_core.Driver.Watchdog.{
  looping, stopped, Round, Breach, tripped, watch, watchdog_loop, watchdog_halts,
}
use porth_core.Sentinel.{Sentinel, start, any_clear, start-trips}

abbrev registers : Device
registers = record {
  control = 1;
  status = 0;
  data_ptr = 0;
  counter = 0;
  laser_temp = 25000;
  gan_voltage = 0;
  rf_snr = pos 3000;
  safety_trip = 0;
}

-- A system whose huge page stands at 4 MiB.
abbrev system : Os
system = record {
  numa_available = true;
  numa_alloc = some 8192;
  aligned_alloc = none;
  mmap = some 4194304;
  mlock = true;
  ci = false;
}

abbrev page : HugePage.HugePage
page = record {
  ptr = 4194304;
  total_size = 2097152;
  node = 0;
  is_numa_managed = true;
  is_mmaped = true;
}

abbrev driver : Driver
driver = record {
  shuttle = record {
    memory = page;
    ring = some (Ring.create 1024 none);
    descriptors = 65536;
    device_iova = 0;
  };
  run_watchdog = true;
  watchdog_ready = true;
  stats = none;
}

abbrev handshaken : Device
handshaken = record registers { data_ptr = 4194304 }

driver_is_built :
    Driver.create 1024 system 65536 (some registers)
    ≡ ((Driver.create 1024 system 65536 (some registers)).0, built_driver driver handshaken)
unfolding Driver.create Shuttle.create Shuttle.place_ring Shuttle.get_device_addr HugePage.create
    HugePage.attempt_hugepage_upgrade HugePage.allocate_initial_buffer HugePage.total_size_of
driver_is_built = refl

abbrev packet : ℕ → Descriptor
packet n = record { addr = 4096 * n; len = 64 }

abbrev burst : List Descriptor
burst = packet 1 ∷ packet 2 ∷ packet 3 ∷ []

abbrev device : Sim
device = record {
  dev = handshaken;
  phy = new_phy 100 0;
  run_sim = true;
  inject_deadlock = false;
  corrupt_status = false;
  bus_hang = false;
  last_valid_shuttle = 0;
}

delivered_example :
    (statuses : List Status) × (last : Ring) × (exchange
        (set_stats_link (some fresh_stats) driver)
        device
        burst
      ≡ some (
        statuses,
        record device { last_valid_shuttle = 4194304; dev = record handshaken { counter = 3 } },
        drained 4194304 last burst,
      ))
    × (contents 1024 last ≡ [])
delivered_example =
    delivered system 65536 registers device burst driver_is_built (omega arith) refl (omega arith)
      refl refl (omega arith)

detached_example :
    All
      (λ dma. dma ≡ idle)
      (run_physics_loop
        (record { memory = λ _. none; draw = record { choice = 3; bit = 7 } } ∷ [])
        (record device { dev = (destroy 1024 driver handshaken).2 })).0
detached_example =
    detached 1024 driver handshaken
      (record { memory = λ _. none; draw = record { choice = 3; bit = 7 } } ∷ [])
      (record device { dev = (destroy 1024 driver handshaken).2 }) refl refl

-- A ring of two, with room for one of the burst.
two-IsSize : IsSize 2
two-IsSize = record { k = 1; power = refl; small = omega arith }

abbrev small : Driver
small = record driver {
  shuttle = record (driver.shuttle) { ring = some (Ring.create 2 none) };
  stats = some fresh_stats;
}

fresh-Fits : Fits fresh_stats
fresh-Fits = record { packets = omega arith; bytes = omega arith; dropped = omega arith }

transmit_all-Burst_example : Burst 2 (Ring.create 2 none) fresh_stats small burst
transmit_all-Burst_example =
    transmit_all-Burst burst two-IsSize fresh-Fits
      (record { ring = refl; stats = refl; valid = create-IsValid two-IsSize })

abbrev linked : Driver
linked = record driver { stats = some fresh_stats }

-- The fourth round breaches.
abbrev temperatures : List Round
temperatures =
    record { run = true; temp = 25000 }
    ∷ record { run = true; temp = 45000 }
    ∷ record { run = true; temp = 45001 }
    ∷ record { run = true; temp = 25000 }
    ∷ []

watchdog_trips : (watchdog_loop (some registers) driver temperatures).0 ≡ tripped 45001
unfolding watchdog_loop watch
watchdog_trips = refl

watchdog_halts_example :
    ((t : ℕ) × Breach temperatures t
      × (watchdog_loop (some registers) driver temperatures ≡ (
        tripped t,
        some (record registers { control = 0 }),
        record driver { watchdog_ready = true; run_watchdog = false },
      )))
    ⊎ (((t : ℕ) → ¬ Breach temperatures t)
        × ((watchdog_loop (some registers) driver temperatures).1 ≡ some registers)
        × ((watchdog_loop (some registers) driver temperatures).2
            ≡ record driver { watchdog_ready = true }))
watchdog_halts_example = watchdog_halts registers driver temperatures

abbrev guardian : Sentinel
guardian = record { running = false; core_id = 1 }

start-trips_example :
    let (ending, layout) = (start guardian).1 registers temperatures in
    ((t : ℕ) × Breach temperatures t
      × (ending ≡ tripped t)
      × (layout ≡ record registers { safety_trip = 0xDEADBEEF }))
    ⊎ (((t : ℕ) → ¬ Breach temperatures t)
        × (layout ≡ registers)
        × (ending ≡ (if any_clear temperatures then stopped else looping)))
start-trips_example = start-trips guardian registers temperatures
