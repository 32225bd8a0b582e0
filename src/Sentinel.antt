-- ===== src/Sentinel.antt =====
-- include/porth/PorthSentinel.hpp: the lattice guard. Its loop is given what each round's loads of `m_running` and of
-- `laser_temp` return, as the watchdog's is.
use porth_core.Base.{
  ℕ, ◌≡◌, ◌≢◌, ◌⊎◌, inl, inr, refl, sym, ◌∙◌, arith, Bool, true, false, List, [], ◌∷◌, ◌++◌, ltb,
  if◌then◌else◌,
}
use porth_core.Device.{Device}
use porth_core.Driver.Watchdog.{
  Round, Ending, looping, stopped, tripped, Ending-cases, Breach, watch, Breach-watch, no-Breach,
}

-- `MAX_TEMP_MC` and `TRIP_CODE`
abbrev pub max_temp_mc : ℕ
max_temp_mc = 45000

abbrev pub trip_code : ℕ
trip_code = 0xDEADBEEF

pub record Sentinel : Type 0 where
  pub running : Bool
  pub core_id : ℕ

-- The loop of the thread, and its effects on the registers.
unfoldable pub guard : Device → List Round → Ending × Device
guard layout [] = (looping, layout)
guard layout (r ∷ rs) =
    let rest = guard layout rs in
    if r.run
    then (if ltb max_temp_mc r.temp
        then (tripped r.temp, record layout { safety_trip = trip_code })
        else rest)
    else (stopped, layout)

-- `start`: it sets the flag, and the thread that it starts runs `guard`, over the rounds as they come. The flag is
-- `stop`'s to clear: the thread only loads it.
unfoldable pub start : Sentinel → Sentinel × (Device → List Round → Ending × Device)
start s = (record s { running = true }, guard)

-- `stop`, before it joins.
unfoldable pub stop : Sentinel → Sentinel
stop s = record s { running = false }

guard-watch :
    (layout : Device) (rs : List Round)
    → ((guard layout rs).0 ≡ watch rs)
      × ((guard layout rs).1 ≡ elim (watch rs) [
        | looping ↦ layout
        | stopped ↦ layout
        | tripped _ ↦ record layout { safety_trip = trip_code }
      ])
unfolding guard watch
guard-watch layout [] = (refl, refl)
guard-watch layout (r ∷ rs) = ground (arith, guard-watch layout rs)

-- Whether some round reads the flag clear.
abbrev pub any_clear : List Round → Bool
any_clear [] = false
any_clear (r ∷ rs) = if r.run then any_clear rs else true

looping-clear : (rs : List Round) → watch rs ≡ looping → any_clear rs ≡ false
unfolding watch
looping-clear [] e = refl
looping-clear (r ∷ rs) e = ground (arith, e, looping-clear rs)

stopped-clear : (rs : List Round) → watch rs ≡ stopped → any_clear rs ≡ true
unfolding watch
stopped-clear [] e = absurd (cc)
stopped-clear (r ∷ rs) e = ground (arith, e, stopped-clear rs)

-- The thread that `start` starts comes out so, on every sequence of rounds. Either some round reads a temperature t over
-- 45000 mC with the flag set in it and in all rounds before it and no temperature over the limit before it:
-- then the guard leaves its loop by the trip at t, with 0xDEADBEEF in the trip register and every other
-- register as it was. Or no round is such a breach: then it writes no register, and it has left its loop if some
-- round reads the flag clear, and is still in it if none does.
pub start-trips :
    (s : Sentinel) (layout : Device) (rs : List Round)
    → let (ending, layout') = (start s).1 layout rs in
      ((t : ℕ) × Breach rs t
        × (ending ≡ tripped t)
        × (layout' ≡ record layout { safety_trip = 0xDEADBEEF }))
      ⊎ (((t : ℕ) → ¬ Breach rs t)
          × (layout' ≡ layout)
          × (ending ≡ (if any_clear rs then stopped else looping)))
unfolding start
start-trips s layout rs = elim (Ending-cases (watch rs)) [
  | inl e ↦ inr (
    no-Breach rs (λ t. ground (arith, e)),
    ground (arith, e, guard-watch layout rs),
    ground (arith, e, guard-watch layout rs, looping-clear rs e),
  )
  | inr (inl e) ↦ inr (
    no-Breach rs (λ t. ground (arith, e)),
    ground (arith, e, guard-watch layout rs),
    ground (arith, e, guard-watch layout rs, stopped-clear rs e),
  )
  | inr (inr (t, e)) ↦ inl (
    t,
    (Breach-watch rs t).1 e,
    ground (arith, e, guard-watch layout rs),
    ground (arith, e, guard-watch layout rs),
  )
]

watch-ends :
    (rs : List Round) (r : Round) (rest : List Round)
    → r.run ≡ false
    → watch (rs ++ r ∷ rest) ≢ looping
unfolding watch
watch-ends [] r rest off = ground (arith, off)
watch-ends (x ∷ rs) r rest off = ground (arith, watch-ends rs r rest off)

-- Once `stop` has cleared the flag, the next round ends the thread, if no trip has, so that the join
-- returns: no run that holds a round with the flag clear is still in its loop.
pub stop-ends :
    (s : Sentinel) (layout : Device) (rs : List Round) (r : Round) (rest : List Round)
    → r.run ≡ (stop s).running
    → ((start s).1 layout (rs ++ r ∷ rest)).0 ≢ looping
unfolding start stop
stop-ends s layout rs r rest off h =
    watch-ends rs r rest off (sym ((guard-watch layout (rs ++ r ∷ rest)).0) ∙ h)
