-- ===== src/Sim/Heartbeat.antt =====
-- tests/test_sim_chaos.cpp: its third phase, a watchdog that takes a temperature which has not moved between two polls for
-- a deadlock. What the physics loop does meanwhile are the rounds given; the flag is seen between two rounds.
use porth_core.Base.{
  ℕ, zero, suc, ◌+◌, ◌≡◌, ◌≢◌, refl, sym, ◌∙◌, ap, arith, Bool, true, false, List, ◌==◌,
  if◌then◌else◌, inl, inr,
}
use porth_core.Phy.{update_thermal_load}
use porth_core.Sim.{
  Sim, Rings, Draw, Turn, sim_base_temp_mc, physics_step, run_physics_loop, next_voltage,
  target_temp,
}
use porth_core.Sim.Loop.{run-keeps}
use porth_core.Sim.Power.{physics_step-Stepped}
use porth_core.Sim.Setup.{trigger_deadlock}

-- `watchdog_max_retries`
abbrev pub watchdog_max_retries : ℕ
watchdog_max_retries = 10

-- The polls that are left, from number `i` on, with the temperature of the last. Before poll `i` come `rounds i`.
unfoldable pub monitor_heartbeat : (ℕ → List Turn) → ℕ → ℕ → ℕ → Sim → Bool × Sim
unfolding trigger_deadlock
monitor_heartbeat rounds zero i last_temp s = (false, s)
monitor_heartbeat rounds (suc left) i last_temp s =
    let s' = (run_physics_loop (rounds i) s).1 in
    let current_temp = s'.dev.laser_temp in
    let rest = monitor_heartbeat rounds left (i + 1) current_temp s' in
    if current_temp == last_temp then (true, trigger_deadlock false s') else rest

-- The deadlock, the first reading of the temperature, before which come the rounds `early`, and the polls. With
-- whether the watchdog recovered the device.
unfoldable deadlock_phase : List Turn → (ℕ → List Turn) → Sim → Bool × Sim
unfolding monitor_heartbeat trigger_deadlock
deadlock_phase early rounds s =
    let frozen = (run_physics_loop early (trigger_deadlock true s)).1 in
    monitor_heartbeat rounds watchdog_max_retries 0 frozen.dev.laser_temp frozen

-- The first poll recovers a device whose rounds do not move its temperature.
first_poll :
    (rounds : ℕ → List Turn) (left i : ℕ) (s : Sim)
    → (run_physics_loop (rounds i) s).1.dev.laser_temp ≡ s.dev.laser_temp
    → monitor_heartbeat rounds (suc left) i s.dev.laser_temp s
      ≡ (true, trigger_deadlock false (run_physics_loop (rounds i) s).1)
unfolding monitor_heartbeat
first_poll rounds left i s e = ground (arith, e)

abbrev Frozen : ℕ → Sim → Type 0
Frozen temp s = (s.inject_deadlock ≡ true) × (s.dev.laser_temp ≡ temp)

physics_step-Frozen :
    (temp : ℕ) (m : Rings) (d : Draw) (s : Sim) → Frozen temp s → Frozen temp (physics_step m d s).0
unfolding physics_step
physics_step-Frozen temp m d s (e, f) = rw e (refl, f)

run-Frozen :
    (temp : ℕ) (xs : List Turn) (s : Sim) → Frozen temp s → Frozen temp (run_physics_loop xs s).1
run-Frozen temp xs s f =
    (run-keeps (Frozen temp) (λ _. Unit) (λ m d t g. (physics_step-Frozen temp m d t g, tt)) xs s
      f).0

-- A device that draws no power, at its temperature of rest.
pub record AtRest (s : Sim) : Type 0 where
  pub off : s.dev.control ≢ 1
  pub volt : s.dev.gan_voltage ≡ 0
  pub temp : s.phy.current_temp_mc ≡ sim_base_temp_mc
  pub shown : s.dev.laser_temp ≡ sim_base_temp_mc

resting-volt : (s : Sim) → AtRest s → next_voltage s.dev ≡ 0
unfolding next_voltage
resting-volt s a = ground (arith, a.off, a.volt)

resting-phy :
    (s : Sim) → AtRest s → update_thermal_load (target_temp (next_voltage s.dev)) s.phy ≡ s.phy
unfolding update_thermal_load target_temp
resting-phy s a = rw (resting-volt s a) (ground (arith, a.temp))

physics_step-AtRest : (m : Rings) (d : Draw) (s : Sim) → AtRest s → AtRest (physics_step m d s).0
physics_step-AtRest m d s a =
    let step = physics_step-Stepped m d s in
    elim step.flow [
      | inl still ↦ record {
        off = λ e. a.off (sym step.control ∙ e);
        volt = still.volt ∙ a.volt;
        temp = ap (λ p. p.current_temp_mc) still.phy ∙ a.temp;
        shown = still.shown ∙ a.shown;
      }
      | inr moved ↦
          let same = ap (λ p. p.current_temp_mc) (moved.phy ∙ resting-phy s a) ∙ a.temp in
          record {
            off = λ e. a.off (sym step.control ∙ e);
            volt = moved.volt ∙ resting-volt s a;
            temp = same;
            shown = moved.shown ∙ same;
          }
    ]

run-AtRest : (xs : List Turn) (s : Sim) → AtRest s → AtRest (run_physics_loop xs s).1
run-AtRest xs s a =
    (run-keeps AtRest (λ _. Unit) (λ m d t b. (physics_step-AtRest m d t b, tt)) xs s a).0

-- The watchdog recovers every deadlocked device, at its first poll, whatever the rounds find: it lifts the deadlock,
-- and the temperature is the one that the device had before it.
deadlock_phase-recovers :
    (early : List Turn) (rounds : ℕ → List Turn) (s : Sim)
    → let (recovered, t) = deadlock_phase early rounds s in
      (recovered ≡ true) × (t.inject_deadlock ≡ false) × (t.dev.laser_temp ≡ s.dev.laser_temp)
unfolding deadlock_phase trigger_deadlock
deadlock_phase-recovers early rounds s =
    let temp = s.dev.laser_temp in
    let t = (run_physics_loop early (trigger_deadlock true s)).1 in
    let before = run-Frozen temp early (trigger_deadlock true s) (refl, refl) in
    let after = run-Frozen temp (rounds 0) t before in
    let poll = first_poll rounds 9 0 t (after.1 ∙ sym before.1) in
    (
      ap (λ x. x.0) poll,
      ap (λ x. x.1.inject_deadlock) poll,
      ap (λ x. x.1.dev.laser_temp) poll ∙ after.1,
    )

-- But it says the same of every device at rest, whether its flag was set or not.
pub monitor_heartbeat-alarms :
    (rounds : ℕ → List Turn) (stuck : Bool) (s : Sim)
    → AtRest s
    → (monitor_heartbeat rounds watchdog_max_retries 0 s.dev.laser_temp
        (trigger_deadlock stuck s)).0
      ≡ true
unfolding trigger_deadlock
monitor_heartbeat-alarms rounds stuck s a =
    let t = trigger_deadlock stuck s in
    let calm : AtRest t = record { off = a.off; volt = a.volt; temp = a.temp; shown = a.shown } in
    ap (λ x. x.0) (first_poll rounds 9 0 t ((run-AtRest (rounds 0) t calm).shown ∙ sym a.shown))
