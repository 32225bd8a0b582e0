-- ===== src/Sim/Power.antt =====
-- One round of the physics loop, as to power: what it does to the control register, the voltage and the temperature.
use porth_core.Base.{
  ℕ, ◌+◌, ◌-◌, ◌*◌, ◌/◌, ◌<◌, ◌≤◌, dec_lt, ◌≡◌, ◌⊎◌, inl, inr, refl, arith, Bool, true, false,
  if◌then◌else◌, ◌∙◌,
}
use porth_core.Device.{Device}
use porth_core.Phy.{Phy, update_thermal_load}
use porth_core.Sim.{
  Sim, Dma, idle, Rings, Draw, next_voltage, target_temp, physics_step, process_dma,
  update_thermal_model, apply_chaos_effects,
}
use porth_core.Sim.Drain.{process_dma-keeps}

-- A round of a deadlocked device.
pub record Still (s t : Sim) : Type 0 where
  pub phy : t.phy ≡ s.phy
  pub volt : t.dev.gan_voltage ≡ s.dev.gan_voltage
  pub shown : t.dev.laser_temp ≡ s.dev.laser_temp

-- A round of one that runs.
pub record Moved (s t : Sim) : Type 0 where
  pub phy : t.phy ≡ update_thermal_load (target_temp (next_voltage s.dev)) s.phy
  pub volt : t.dev.gan_voltage ≡ next_voltage s.dev
  pub shown : t.dev.laser_temp ≡ t.phy.current_temp_mc

pub record Stepped (s t : Sim) : Type 0 where
  pub control : t.dev.control ≡ s.dev.control
  pub flow : Still s t ⊎ Moved s t

record Untouched (s t : Sim) : Type 0 where
  phy : t.phy ≡ s.phy
  control : t.dev.control ≡ s.dev.control
  volt : t.dev.gan_voltage ≡ s.dev.gan_voltage
  shown : t.dev.laser_temp ≡ s.dev.laser_temp

apply_chaos_effects-Untouched : (d : Draw) (s : Sim) → Untouched s (apply_chaos_effects d s)
unfolding apply_chaos_effects
apply_chaos_effects-Untouched d s = record {
  phy = ground arith;
  control = ground arith;
  volt = ground arith;
  shown = ground arith;
}

process_dma-Untouched : (rings : Rings) (s : Sim) → Untouched s (process_dma rings s).0
process_dma-Untouched rings s =
    let kept = process_dma-keeps rings s in
    record {
      phy = kept.1;
      control = ground (arith, kept.0);
      volt = ground (arith, kept.0);
      shown = ground (arith, kept.0);
    }

pub next_voltage-same :
    (a b : Device)
    → a.control ≡ b.control
    → a.gan_voltage ≡ b.gan_voltage
    → next_voltage a ≡ next_voltage b
unfolding next_voltage
next_voltage-same a b e f = rw (e, f) refl

update_thermal_model-Stepped : (s t : Sim) → Untouched s t → Stepped s (update_thermal_model t)
unfolding update_thermal_model
update_thermal_model-Stepped s t u =
    let same = next_voltage-same t.dev s.dev u.control u.volt in
    record {
      control = u.control;
      flow = inr (record { phy = rw (same, u.phy) refl; volt = same; shown = refl });
    }

then-Untouched : {s t u : Sim} → Stepped s t → Untouched t u → Stepped s u
then-Untouched a b = record {
  control = b.control ∙ a.control;
  flow = elim a.flow [
    | inl still ↦ inl (record {
      phy = b.phy ∙ still.phy;
      volt = b.volt ∙ still.volt;
      shown = b.shown ∙ still.shown;
    })
    | inr moved ↦ inr (record {
      phy = b.phy ∙ moved.phy;
      volt = b.volt ∙ moved.volt;
      shown = ground (arith, b.shown, moved.shown, b.phy);
    })
  ];
}

if-Stepped :
    {s : Sim} (b : Bool) (x y : Sim × Dma)
    → Stepped s x.0
    → Stepped s y.0
    → Stepped s (if b then x else y).0
if-Stepped true x y p q = p
if-Stepped false x y p q = q

-- Every round keeps the control register, and either leaves voltage and temperature as they are, as a deadlocked
-- device does, or moves both by the thermal model and shows the temperature in its register.
pub physics_step-Stepped :
    (rings : Rings) (d : Draw) (s : Sim) → Stepped s (physics_step rings d s).0
unfolding physics_step
physics_step-Stepped rings d s =
    let s' : Sim = record s { dev = record (s.dev) { status = 1 } } in
    let fetched = process_dma-Untouched rings s' in
    let dma = (process_dma rings s').0 in
    let since : Untouched s dma = record {
      phy = fetched.phy;
      control = fetched.control;
      volt = fetched.volt;
      shown = fetched.shown;
    } in
    let run =
      then-Untouched (update_thermal_model-Stepped s dma since)
        (apply_chaos_effects-Untouched d (update_thermal_model dma)) in
    let still : Stepped s s' = record {
      control = refl;
      flow = inl (record { phy = refl; volt = refl; shown = refl });
    } in
    if-Stepped s.inject_deadlock (s', idle) (_, _) still run

-- The rounds that the voltage needs to fall to 0.
abbrev pub rounds_left : ℕ → ℕ
rounds_left volt = (volt + 7999) / 8000

pub rises_by :
    (t : ℕ) (p : Phy)
    → 24985 < p.current_temp_mc
    → p.current_temp_mc < 89025
    → (update_thermal_load t p).current_temp_mc ≤ p.current_temp_mc + 25
unfolding update_thermal_load
rises_by t p lo hi = ground arith

cools_at_base :
    (p : Phy)
    → 24985 < p.current_temp_mc
    → p.current_temp_mc < 89025
    → ((update_thermal_load 25000 p).current_temp_mc ≤ p.current_temp_mc)
      ⊎ ((update_thermal_load 25000 p).current_temp_mc ≤ 25025)
unfolding update_thermal_load
cools_at_base p lo hi = ground arith

off_voltage : (dev : Device) → dev.control ≡ 0 → next_voltage dev ≡ dev.gan_voltage - 8000
unfolding next_voltage
off_voltage dev off = ground arith

-- With the power off a round uses up the rise that the voltage can still cause, or is near 25 degrees.
pub spends :
    (dev : Device) (p : Phy)
    → dev.control ≡ 0
    → 24985 < p.current_temp_mc
    → p.current_temp_mc < 89025
    → let q = update_thermal_load (target_temp (next_voltage dev)) p in
      (q.current_temp_mc + 25 * rounds_left (next_voltage dev)
        ≤ p.current_temp_mc + 25 * rounds_left dev.gan_voltage)
      ⊎ (q.current_temp_mc + 25 * rounds_left (next_voltage dev) ≤ 25025)
unfolding target_temp
spends dev p off lo hi = elim (dec_lt 8000 dev.gan_voltage) [
  | yes more ↦
      let less : rounds_left (next_voltage dev) + 1 ≤ rounds_left dev.gan_voltage =
        omega (arith, off_voltage dev off) in
      inl (omega (arith, less, rises_by (target_temp (next_voltage dev)) p lo hi))
  | no little ↦
      let gone : next_voltage dev ≡ 0 = omega (arith, off_voltage dev off) in
      rw gone (elim (cools_at_base p lo hi) [
        | inl down ↦ inl (omega (arith, down))
        | inr near ↦ inr (omega (arith, near))
      ])
]
