-- ===== src/Sim/Lattice.antt =====
-- `update_thermal_model`: the ranges that voltage, temperature and SNR stay in, and the cooling down after
-- power-off.
use porth_core.Base.{
  ℕ, zero, suc, ◌+◌, ◌-◌, ◌*◌, ◌≤◌, ◌<◌, ◌≡◌, ◌≢◌, ◌⊎◌, refl, ap, ◌∙◌, arith, if◌then◌else◌, Bool,
  true, false,
}
use porth_core.Base.Int.{pos, ◌-ℤ◌, ◌≤ℤ◌}
use porth_core.Device.{Device}
use porth_core.Phy.{Phy, update_thermal_load}
use porth_core.Phy.Thermal.{Near, updates, settles}
use porth_core.Sim.Drain.{process_dma-keeps}
use porth_core.Sim.{
  Sim, Dma, idle, Rings, Draw, next_voltage, target_temp, snr_of, update_thermal_model,
  physics_step, process_dma, apply_chaos_effects,
}

-- The range of the physics: voltage, and temperature with its overshoot.
pub record InRange (s : Sim) : Type 0 where
  pub volt : s.dev.gan_voltage < 804000
  pub warm : 24985 < s.phy.current_temp_mc
  pub cool : s.phy.current_temp_mc < 89025

next_voltage-lt : (d : Device) → d.gan_voltage < 804000 → next_voltage d < 804000
unfolding next_voltage
next_voltage-lt d h = ground arith

target_temp-range : (v : ℕ) → v < 804000 → (25000 ≤ target_temp v) × (target_temp v ≤ 89000)
unfolding target_temp
target_temp-range v h = ground arith

next_temp-range :
    (t : ℕ) (p : Phy)
    → (25000 ≤ t) × (t ≤ 89000)
    → 24985 < p.current_temp_mc
    → p.current_temp_mc < 89025
    → let q = update_thermal_load t p in (24985 < q.current_temp_mc) × (q.current_temp_mc < 89025)
unfolding update_thermal_load
next_temp-range t p h lo hi = ground arith

snr-range :
    (t : ℕ)
    → t < 89025
    → (pos 1775 ≤ℤ snr_of t) × (snr_of t ≤ℤ pos 3000) × ((40000 < t) ⊎ (snr_of t ≡ pos 3000))
unfolding snr_of ◌-ℤ◌
snr-range t h = (ground arith, ground arith, ground arith)

-- Every round of the model keeps voltage and temperature in range, writes the PHY's temperature to the
-- register, and writes an SNR between 17.75 and 30 dB that is 30 dB up to 40 degrees.
pub update_thermal_model-InRange :
    (s : Sim)
    → InRange s
    → let t = update_thermal_model s in
      InRange t
      × (t.dev.laser_temp ≡ t.phy.current_temp_mc)
      × (pos 1775 ≤ℤ t.dev.rf_snr)
      × (t.dev.rf_snr ≤ℤ pos 3000)
      × ((40000 < t.dev.laser_temp) ⊎ (t.dev.rf_snr ≡ pos 3000))
unfolding update_thermal_model
update_thermal_model-InRange s v =
    let volt : ℕ = next_voltage s.dev in
    let kept = next_voltage-lt s.dev v.volt in
    let temp =
      next_temp-range (target_temp volt) s.phy (target_temp-range volt kept) v.warm v.cool in
    let (lo, hi, flat) =
      snr-range (update_thermal_load (target_temp volt) s.phy).current_temp_mc temp.1 in
    (record { volt = kept; warm = temp.0; cool = temp.1 }, refl, lo, hi, flat)

apply_chaos_effects-InRange : (d : Draw) (s : Sim) → InRange s → InRange (apply_chaos_effects d s)
unfolding apply_chaos_effects
apply_chaos_effects-InRange d s v = ground arith

process_dma-InRange : (rings : Rings) (s : Sim) → InRange s → InRange (process_dma rings s).0
process_dma-InRange rings s v = ground (arith, process_dma-keeps rings s)

if-InRange :
    (b : Bool) (x y : Sim × Dma) → InRange x.0 → InRange y.0 → InRange (if b then x else y).0
if-InRange true x y p q = p
if-InRange false x y p q = q

-- So every round of the physics loop does, whatever the flags, the ring and the draws.
pub physics_step-InRange :
    (rings : Rings) (d : Draw) (s : Sim) → InRange s → InRange (physics_step rings d s).0
unfolding physics_step
physics_step-InRange rings d s v =
    let s' : Sim = record s { dev = record (s.dev) { status = 1 } } in
    let marked : InRange s' = record { volt = v.volt; warm = v.warm; cool = v.cool } in
    let dma = (process_dma rings s').0 in
    let fetched = process_dma-InRange rings s' marked in
    let stepped =
      apply_chaos_effects-InRange d (update_thermal_model dma)
        (update_thermal_model-InRange dma fetched).0 in
    if-InRange s.inject_deadlock (s', idle) (_, _) marked stepped

-- `n` rounds of the model.
pub thermal_rounds : ℕ → Sim → Sim
thermal_rounds zero s = s
thermal_rounds (suc n) s = thermal_rounds n (update_thermal_model s)

update_thermal_model-off :
    (s : Sim)
    → s.dev.control ≢ 1
    → let t = update_thermal_model s in
      (t.dev.control ≢ 1)
      × (t.dev.gan_voltage ≡ s.dev.gan_voltage - 8000)
      × (s.dev.gan_voltage ≡ 0 → t.phy ≡ update_thermal_load 25000 s.phy)
unfolding update_thermal_model next_voltage target_temp
update_thermal_model-off s off = (off, ground arith, λ e. ground arith)

-- With the power off and no voltage left, the rounds are updates towards 25 degrees.
rounds-updates :
    (n : ℕ) (s : Sim)
    → s.dev.control ≢ 1
    → s.dev.gan_voltage ≡ 0
    → ((thermal_rounds n s).phy ≡ updates n 25000 s.phy)
      × ((thermal_rounds n s).dev.gan_voltage ≡ 0)
unfolding thermal_rounds updates
rounds-updates zero s off e = (refl, e)
rounds-updates (suc n) s off e =
    let (off', volt, phy) = update_thermal_model-off s off in
    let (p, v) = rounds-updates n (update_thermal_model s) off' (omega arith) in
    (p ∙ ap (updates n 25000) (phy e), v)

-- The voltage falls to 0.
record Drained (s : Sim) : Type 0 where
  off : s.dev.control ≢ 1
  none_left : s.dev.gan_voltage ≡ 0
  range : InRange s

rounds-Drained :
    (n : ℕ) (s : Sim)
    → s.dev.control ≢ 1
    → InRange s
    → s.dev.gan_voltage ≤ 8000 * n
    → Drained (thermal_rounds n s)
unfolding thermal_rounds
rounds-Drained zero s off v h = record { off = off; none_left = omega arith; range = v }
rounds-Drained (suc n) s off v h =
    let (off', volt, phy) = update_thermal_model-off s off in
    rounds-Drained n (update_thermal_model s) off' (update_thermal_model-InRange s v).0
      (omega arith)

thermal_rounds-add :
    (n m k : ℕ) (s : Sim) → n + m ≡ k → thermal_rounds k s ≡ thermal_rounds m (thermal_rounds n s)
unfolding thermal_rounds
thermal_rounds-add zero m k s e = let e' : k ≡ m = omega arith in rw e'
thermal_rounds-add (suc n) m zero s e = absurd (omega arith)
thermal_rounds-add (suc n) m (suc k) s e =
    thermal_rounds-add n m k (update_thermal_model s) (omega arith)

-- While the control register is not 1, the device cools: from any state in range, after 101 rounds and
-- then 4267 or more, the voltage is 0 and the temperature near 25 degrees: above it by less than one
-- heating step, or below it by less than one cooling step.
pub cools_down :
    (n : ℕ) (s : Sim)
    → s.dev.control ≢ 1
    → InRange s
    → 4267 ≤ n
    → let t = thermal_rounds (101 + n) s in (t.dev.gan_voltage ≡ 0) × Near 25000 t.phy
cools_down n s off v h =
    let mid = rounds-Drained 101 s off v (omega arith) in
    let (phy, volt) = rounds-updates n (thermal_rounds 101 s) mid.off mid.none_left in
    rw (thermal_rounds-add 101 n (101 + n) s refl, phy)
      (
        volt,
        settles n 25000 (thermal_rounds 101 s).phy (omega arith) (omega arith) (omega arith)
            (omega arith) (omega arith),
      )
