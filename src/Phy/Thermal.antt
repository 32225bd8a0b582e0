-- ===== src/Phy/Thermal.antt =====
-- The inertial temperature of `update_thermal_load`: where it settles, and where it leaves uint32_t.
use porth_core.Base.{ℕ, zero, suc, ◌+◌, ◌*◌, ◌^◌, ◌≤◌, ◌<◌, ◌≡◌, ◌⊎◌, arith}
use porth_core.Phy.{Phy, update_thermal_load, heating_step_mc, cooling_step_mc}

-- `n` updates with the same target.
unfoldable pub updates : ℕ → ℕ → Phy → Phy
updates zero target p = p
updates (suc n) target p = updates n target (update_thermal_load target p)

-- Less than one cooling step below the target, or less than one heating step above it.
pub record Near (target : ℕ) (p : Phy) : Type 0 where
  pub not_cold : target < p.current_temp_mc + cooling_step_mc
  pub not_hot : p.current_temp_mc < target + heating_step_mc

-- One update keeps a temperature near its target there.
pub update-Near :
    (target : ℕ) {p : Phy}
    → cooling_step_mc ≤ target
    → target + heating_step_mc < 2 ^ 32
    → Near target p
    → Near target (update_thermal_load target p)
unfolding update_thermal_load
update-Near target {p} lo hi v = ground arith

-- What one update does to the distance.
closer :
    (target : ℕ) (p : Phy)
    → cooling_step_mc ≤ target
    → target + heating_step_mc < 2 ^ 32
    → p.current_temp_mc < 2 ^ 32
    → let q = update_thermal_load target p in
      ((target < q.current_temp_mc + cooling_step_mc)
        ⊎ (q.current_temp_mc ≡ p.current_temp_mc + 25))
      × ((q.current_temp_mc < target + 25) ⊎ (q.current_temp_mc + 15 ≡ p.current_temp_mc))
      × (q.current_temp_mc < 2 ^ 32)
unfolding update_thermal_load
closer target p lo hi r = ground arith

-- From any temperature, on either side of the target, the temperature is near the target after every
-- number of updates that covers the distance at 25 up or 15 down each.
pub settles :
    (n target : ℕ) (p : Phy)
    → cooling_step_mc ≤ target
    → target + heating_step_mc < 2 ^ 32
    → target < p.current_temp_mc + cooling_step_mc + heating_step_mc * n
    → p.current_temp_mc < target + heating_step_mc + cooling_step_mc * n
    → p.current_temp_mc < 2 ^ 32
    → Near target (updates n target p)
unfolding updates
settles zero target p lo hi a b r = omega arith
settles (suc n) target p lo hi a b r =
    let d = closer target p lo hi r in
    settles n target (update_thermal_load target p) lo hi (omega arith) (omega arith) d.2

-- From a temperature below one cooling step an update towards a lower target wraps round: the reading
-- jumps to within 15 of 2^32 milli-Celsius.
pub cooling_wraps :
    (target : ℕ) (p : Phy)
    → target < p.current_temp_mc
    → p.current_temp_mc < cooling_step_mc
    → 2 ^ 32 ≤ (update_thermal_load target p).current_temp_mc + cooling_step_mc
unfolding update_thermal_load
cooling_wraps target p h k = ground arith
