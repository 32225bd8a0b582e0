-- ===== src/Tool.antt =====
-- tools/porth-sim-ctl.cpp: the orchestrator's commands: what the
-- dashboard prints is its result; the device's own thread runs beside a command, and its rounds are arguments.
pub mod PowerOff
pub mod Args
pub mod Audit
pub mod Chaos
use porth_core.Base.{
  ℕ, zero, suc, ◌/◌, Bool, true, false, not, Option, none, some, List, [], ◌∷◌, ltb, ◌==◌,
  if◌then◌else◌,
}
use porth_core.Base.Int.{ℤ}
use porth_core.Device.{Device}
use porth_core.Phy.{Phy, set_config}
use porth_core.Sim.{Sim, Turn, run_physics_loop}
use porth_core.Sim.Setup

abbrev pub default_temp_c : ℕ
default_temp_c = 25

abbrev pub base_ns : ℕ
base_ns = 500

abbrev pub jitter_ns : ℕ
jitter_ns = 250

abbrev pub monitor_iterations : ℕ
monitor_iterations = 20

abbrev pub scale_factor : ℕ
scale_factor = 1000

-- `handle_launch` up to its endless loop; `none` is the constructor's exception. `view` is the mapped region.
unfoldable pub handle_launch : Phy → Bool → Option Device → ℕ → Option Sim
handle_launch phy config_open view delay = elim (Setup.create phy config_open view) [
  | none ↦ none
  | some sim ↦ some (record sim { phy = set_config delay default_temp_c sim.phy })
]

-- `handle_stress`, with the rounds that its own device's thread runs before and after the scenario is
-- applied, up to the end of the destructor.
unfoldable pub handle_stress : Phy → Bool → Option Device → List Turn → List Turn → Option Sim
handle_stress phy config_open view xs ys = elim (Setup.create phy config_open view) [
  | none ↦ none
  | some sim ↦
      let begun = run_physics_loop xs sim in
      let stressed = run_physics_loop ys (Setup.apply_scenario base_ns jitter_ns true begun.1) in
      some (Setup.destroy stressed.1)
]

-- What one line of the dashboard shows.
pub record Row : Type 0 where
  pub temp_mc : ℕ
  pub volt : ℕ
  pub snr_raw : ℤ
  pub count : ℕ
  pub warning : Bool

abbrev pub row_of : Device → Row
row_of dev = record {
  temp_mc = dev.laser_temp;
  volt = dev.gan_voltage / scale_factor;
  snr_raw = dev.rf_snr;
  count = dev.counter;
  warning = ltb 40000 dev.laser_temp;
}

-- The loop of `handle_monitor`, over what each of its rounds reads; with whether it ends at a status of 0.
pub monitor_loop : ℕ → List Device → List Row × Bool
monitor_loop zero seen = ([], false)
monitor_loop (suc n) [] = ([], false)
monitor_loop (suc n) (dev ∷ seen) =
    let (rows, offline) = monitor_loop n seen in
    if dev.status == 0 then ([], true) else (row_of dev ∷ rows, offline)

-- `handle_monitor`; `seen` is what the rounds of its loop read.
unfoldable pub handle_monitor : Phy → Bool → Option Device → List Device → Option (List Row × Bool)
handle_monitor phy config_open view seen = elim (Setup.create phy config_open view) [
  | none ↦ none
  | some sim ↦ some (monitor_loop monitor_iterations seen)
]
