-- ===== src/Driver/ClosedLoop/Bound.antt =====
-- The temperature that the watchdog and the device cannot exceed together.
use mathlib.Core.Path.{subst}
use porth_core.Base.{ℕ, ◌+◌, ◌*◌, ◌≤◌, ◌≡◌, inl, inr, arith, true, List, [], ◌∷◌, some, none, sym}
use porth_core.Sim.Lattice.{InRange}
use porth_core.Base.{Option, Option-cases}
use porth_core.Driver.ClosedLoop.{Event, device, look, act, Closed, happen, happen_all, Prompt}
use porth_core.Driver.ClosedLoop.Inv.{
  Recent, Guarded, device-Guarded, look-Guarded, act-Guarded, idle-Guarded,
}

happen_all-Guarded :
    {k n : ℕ} {m : Option ℕ} {c : Closed} (es : List Event)
    → Prompt k n m es
    → Guarded k n m c
    → (a : ℕ) × (b : Option ℕ) × Guarded k a b (happen_all es c)
unfolding happen_all
happen_all-Guarded {n = n} {m = m} [] p g = (n, m, g)
happen_all-Guarded {m = none} {c = c} (device x ∷ es) p g =
    happen_all-Guarded {c = happen (device x) c} es p.1 (device-Guarded x p.0 g)
happen_all-Guarded {m = some m} {c = c} (device x ∷ es) p g =
    happen_all-Guarded {c = happen (device x) c} es p.1 (device-Guarded x p.0 g)
happen_all-Guarded {m = none} {c = c} (look ∷ es) p g =
    happen_all-Guarded {c = happen look c} es p (look-Guarded g)
happen_all-Guarded {m = some m} (look ∷ es) p g = elim p [ ]
happen_all-Guarded {m = none} (act ∷ es) p g = elim p [ ]
happen_all-Guarded {m = some m} {c = c} (act ∷ es) p g = elim (Option-cases c.seen) [
  | inl e ↦ happen_all-Guarded {c = happen act c} es p (idle-Guarded e g)
  | inr (r, e) ↦ happen_all-Guarded {c = happen act c} es p (act-Guarded r e g)
]

-- The watchdog and the device together: if from each look of the watchdog to its act behind the next look there
-- are at most `k` rounds of the device, then from a device in range that shows its temperature, of at
-- most 45000, with the watchdog on and about to look, the temperature never exceeds 45000 by more than
-- 25 * (k + 101), the rise of k rounds and of the 101 in which the voltage falls, whatever the device's
-- memory holds and its chaos does.
pub stays_bounded :
    (k : ℕ) (es : List Event) (c : Closed)
    → Prompt k 0 none es
    → InRange c.sim
    → c.sim.dev.laser_temp ≡ c.sim.phy.current_temp_mc
    → c.sim.phy.current_temp_mc ≤ 45000
    → c.driver.run_watchdog ≡ true
    → c.seen ≡ none
    → (happen_all es c).sim.phy.current_temp_mc ≤ 45000 + 25 * (k + 101)
stays_bounded k es c p v shown cool on unseen =
    let start : Guarded k 0 none c = record {
      range = v;
      shown = shown;
      recent = omega arith;
      older = tt;
      state = inl (record {
        flag = on;
        low = omega (arith, cool);
        since = subst (Recent c.sim.phy.current_temp_mc none) (sym unseen) tt;
      });
    } in
    let (n, m, g) = happen_all-Guarded es p start in
    elim g.state [ inl run ↦ omega (arith, run.low, g.recent) | inr off ↦ omega (arith, off.bound) ]
