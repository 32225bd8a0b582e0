-- ===== src/Tests/Tool.antt =====
-- The audit of a machine, and the watchdog of the chaos test over a device at rest, at concrete inputs.
use porth_core.Base.{ℕ, ◌≡◌, refl, arith, true, false, none, some, List, [], ◌∷◌}
use porth_core.Base.Int.{pos}
use porth_core.Phy.{new_phy}
use porth_core.Sim.{Sim, Turn}
use porth_core.Sim.Heartbeat.{monitor_heartbeat, watchdog_max_retries, monitor_heartbeat-alarms}
use porth_core.Sim.Setup.{trigger_deadlock}
use porth_core.Tool.Audit.{Entry, clears, main}

-- A CPU without a file of a governor, and one that saves power.
abbrev bare : Entry
bare = record { names_cpu = true; digit_last = true; governor = none }

abbrev saving : Entry
saving = record { names_cpu = true; digit_last = true; governor = some "powersave" }

bare_passes : (main (bare ∷ []) false none 1).1.governor ≡ true
unfolding main clears
bare_passes = refl

saving_fails : (main (bare ∷ saving ∷ []) false none 1).1.governor ≡ false
unfolding main clears
saving_fails = refl

abbrev resting : Sim
resting = record {
  dev = record {
    control = 0;
    status = 1;
    data_ptr = 4096;
    counter = 0;
    laser_temp = 25000;
    gan_voltage = 0;
    rf_snr = pos 3000;
    safety_trip = 0;
  };
  phy = new_phy 100 25;
  run_sim = true;
  inject_deadlock = false;
  corrupt_status = false;
  bus_hang = false;
  last_valid_shuttle = 4096;
}

abbrev turns : ℕ → List Turn
turns _ = record { memory = λ _. none; draw = record { choice = 30; bit = 7 } } ∷ []

-- The device runs, and is reported as recovered.
false_alarm :
    (monitor_heartbeat turns watchdog_max_retries 0 25000 (trigger_deadlock false resting)).0 ≡ true
false_alarm =
    monitor_heartbeat-alarms turns false resting
      (record { off = λ e. omega (arith, e); volt = refl; temp = refl; shown = refl })
