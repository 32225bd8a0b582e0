-- ===== src/Tool/PowerOff.antt =====
-- A command that attaches to a running chip powers it off.
use porth_core.Base.{ℕ, ◌+◌, ◌<◌, ◌≤◌, ◌≡◌, ◌∙◌, refl, arith, Bool, true, some, List}
use porth_core.Device.{Device}
use porth_core.Phy.{new_phy, set_config}
use porth_core.Phy.Thermal.{Near}
use porth_core.Sim.{Sim, Turn, run_physics_loop}
use porth_core.Sim.Power.{physics_step-Stepped}
use porth_core.Sim.Loop.{run-keeps}
use porth_core.Sim.Setup.{create, apply_scenario, destroy, load_newport_profile, trigger_corruption}
use porth_core.Sim.Lattice.{InRange, physics_step-InRange, thermal_rounds, cools_down}
use porth_core.Tool

-- What a command's own device keeps: the control register at 0, and the voltage in range.
record Off (s : Sim) : Type 0 where
  control : s.dev.control ≡ 0
  range : InRange s

run-Off : (xs : List Turn) (s : Sim) → Off s → Off (run_physics_loop xs s).1
run-Off xs s v =
    let kept =
      run-keeps Off (λ _. Unit)
        (λ m d t w. (
          record {
            control = (physics_step-Stepped m d t).control ∙ w.control;
            range = physics_step-InRange m d t w.range;
          },
          tt,
        ))
        xs s v in
    kept.0

-- A device whose power is off cools down over any registers that another process left like that.
cools_over :
    (n : ℕ) (owner : Sim) (dev : Device)
    → InRange owner
    → dev.control ≡ 0
    → dev.gan_voltage < 804000
    → 4267 ≤ n
    → let t = thermal_rounds (101 + n) (record owner { dev = dev }) in
      (t.dev.gan_voltage ≡ 0) × Near 25000 t.phy
cools_over n owner dev v off volt h =
    cools_down n (record owner { dev = dev }) (omega (arith, off))
      (record { volt = volt; warm = v.warm; cool = v.cool }) h

-- The constructor over the chip's registers, then rounds, then the scenario, then rounds.
attached :
    (base jitter : ℕ) (config_open : Bool) (dev : Device)
    → dev.gan_voltage < 804000
    → (s : Sim) × (create (new_phy base jitter) config_open (some dev) ≡ some s) × Off s
unfolding create load_newport_profile set_config
attached base jitter config_open dev h =
    (_, refl, record { control = ground arith; range = ground arith })

scenario-Off : (s : Sim) → Off s → Off (apply_scenario Tool.base_ns Tool.jitter_ns true s)
unfolding apply_scenario trigger_corruption set_config
scenario-Off s v = record {
  control = v.control;
  range = record { volt = v.range.volt; warm = v.range.warm; cool = v.range.cool };
}

-- A stress run attaches to a chip in range that is powered, and leaves the chip's registers with 0 in the control
-- register, whatever rounds its own device runs: over them, after 101 rounds of its model and then 4267
-- or more, the chip has no voltage and has cooled to near 25 degrees.
pub handle_stress-powers_off :
    (base jitter : ℕ) (config_open : Bool) (owner : Sim) (xs ys : List Turn) (n : ℕ)
    → InRange owner
    → 4267 ≤ n
    → (t : Sim) × (Tool.handle_stress (new_phy base jitter) config_open (some owner.dev) xs ys
        ≡ some t)
      × (t.dev.control ≡ 0)
      × (let last = thermal_rounds (101 + n) (record owner { dev = t.dev }) in
          (last.dev.gan_voltage ≡ 0) × Near 25000 last.phy)
unfolding Tool.handle_stress destroy
handle_stress-powers_off base jitter config_open owner xs ys n v h =
    let (s, e, off) = attached base jitter config_open owner.dev v.volt in
    let end = run-Off ys _ (scenario-Off _ (run-Off xs s off)) in
    let stressed =
      run_physics_loop ys
        (apply_scenario Tool.base_ns Tool.jitter_ns true (run_physics_loop xs s).1) in
    (
      destroy stressed.1,
      ground (arith, e),
      end.control,
      cools_over n owner _ v end.control end.range.volt h,
    )
