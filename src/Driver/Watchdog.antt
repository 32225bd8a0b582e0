-- ===== src/Driver/Watchdog.antt =====
-- `Driver::watchdog_loop`: the rounds of the thermal watchdog. What other threads do shows in what each
-- round reads.
use porth_core.Base.{
  ℕ, ◌<◌, ◌≤◌, ◌≡◌, ◌≢◌, ◌⊎◌, inl, inr, ◌↔◌, refl, arith, Bool, true, false, List, [], ◌∷◌, ltb,
  if◌then◌else◌, Option, none, some,
}
use porth_core.Device.{Device}
use porth_core.Driver.{Driver}

-- `Driver::THERMAL_THRESHOLD_MC`
abbrev pub thermal_threshold_mc : ℕ
thermal_threshold_mc = 45000

-- One round: what the loads of `m_run_watchdog` and of `laser_temp` return.
pub record Round : Type 0 where
  pub run : Bool
  pub temp : ℕ

-- Where the thread is after the rounds: still in its loop, out of it because the flag was clear, or out
-- of it by the trip, with the temperature that caused it.
pub data Ending : Type 0 where
  looping : Ending
  stopped : Ending
  tripped : (temp : ℕ) → Ending

unfoldable pub watch : List Round → Ending
watch [] = looping
watch (r ∷ rs) =
    let rest = watch rs in
    if r.run then (if ltb thermal_threshold_mc r.temp then tripped r.temp else rest) else stopped

-- The loop with its effects: the trip writes 0 to the control register and clears the flag. A null
-- register pointer ends the thread before the loop.
unfoldable pub watchdog_loop : Option Device → Driver → List Round → Ending × Option Device × Driver
watchdog_loop none d rs = (stopped, none, d)
watchdog_loop (some regs) d rs =
    let ready : Driver = record d { watchdog_ready = true } in
    elim (watch rs) [
      | tripped t ↦
          (tripped t, some (record regs { control = 0 }), record ready { run_watchdog = false })
      | looping ↦ (looping, some regs, ready)
      | stopped ↦ (stopped, some regs, ready)
    ]

-- The first round that finds the flag set and the temperature over the limit, before any that finds the
-- flag clear; the argument is its temperature.
abbrev pub Breach : List Round → ℕ → Type 0
Breach [] t = ⊥
Breach (r ∷ rs) t =
    (r.run ≡ true) × (((45000 < r.temp) × (r.temp ≡ t)) ⊎ ((r.temp ≤ 45000) × Breach rs t))

pub Breach-watch : (rs : List Round) (t : ℕ) → Breach rs t ↔ (watch rs ≡ tripped t)
unfolding watch
Breach-watch [] t = (λ b. absurd b, λ e. absurd (cc))
Breach-watch (r ∷ rs) t =
    (λ b. ground (arith, Breach-watch rs t), λ e. ground (arith, Breach-watch rs t))

-- How the loop ends.
pub Ending-cases : (e : Ending) → (e ≡ looping) ⊎ ((e ≡ stopped) ⊎ ((t : ℕ) × (e ≡ tripped t)))
Ending-cases looping = inl refl
Ending-cases stopped = inr (inl refl)
Ending-cases (tripped t) = inr (inr (t, refl))

pub no-Breach : (rs : List Round) → ((t : ℕ) → watch rs ≢ tripped t) → (t : ℕ) → ¬ Breach rs t
no-Breach rs h t b = h t ((Breach-watch rs t).0 b)

-- On every sequence of rounds one of two things happens. Some round reads a temperature t over 45000 mC
-- with the flag set in it and in all rounds before it and no temperature over the limit before it: then
-- the watchdog leaves its loop by the trip at t, with 0 in the control register, the flag cleared, and
-- every other register as it was. Or no round is such a breach: then it writes no register and does not
-- touch the flag.
pub watchdog_halts :
    (regs : Device) (d : Driver) (rs : List Round)
    → ((t : ℕ) × Breach rs t
        × (watchdog_loop (some regs) d rs ≡ (
          tripped t,
          some (record regs { control = 0 }),
          record d { watchdog_ready = true; run_watchdog = false },
        )))
      ⊎ (((t : ℕ) → ¬ Breach rs t)
          × ((watchdog_loop (some regs) d rs).1 ≡ some regs)
          × ((watchdog_loop (some regs) d rs).2 ≡ record d { watchdog_ready = true }))
unfolding watchdog_loop
watchdog_halts regs d rs = elim (Ending-cases (watch rs)) [
  | inl e ↦ inr (no-Breach rs (λ t. ground (arith, e)), ground (arith, e), ground (arith, e))
  | inr (inl e) ↦ inr (no-Breach rs (λ t. ground (arith, e)), ground (arith, e), ground (arith, e))
  | inr (inr (t, e)) ↦ inl (t, (Breach-watch rs t).1 e, ground (arith, e))
]
