-- ===== src/Driver/ClosedLoop.antt =====
-- The watchdog's thread and the device's physics thread over one register region, as an explicit order of their rounds.
pub mod Inv
pub mod Bound
use mathlib.Core.Path.{subst}
use porth_core.Base.{
  ℕ, suc, ◌+◌, ◌*◌, ◌≤◌, ◌<◌, ◌≡◌, ◌⊎◌, inl, inr, arith, true, false, List, [], ◌∷◌, some, none,
  Bool-cases, dec_lt, ap, sym, ◌∙◌,
}
use porth_core.Sim.{Sim, Turn, physics_step, next_voltage, target_temp}
use porth_core.Sim.Lattice.{InRange, physics_step-InRange}
use porth_core.Sim.Power.{physics_step-Stepped, rounds_left, rises_by, spends}
use porth_core.Driver.{Driver}
use porth_core.Base.{Option, Option-cases}
use porth_core.Driver.Watchdog.{Round}
use porth_core.Driver.Watchdog.{watchdog_loop, watch}

-- A round of the device's thread, or one of the two halves of the watchdog's: it loads its flag and the temperature
-- register, and it does with them what its loop does.
pub data Event : Type 0 where
  device : Turn → Event
  look act : Event

-- `seen` is what the watchdog has loaded and not yet acted upon.
pub record Closed : Type 0 where
  pub sim : Sim
  pub driver : Driver
  pub seen : Option Round

unfoldable pub look_round : Closed → Closed
look_round c = record c {
  seen = some (record { run = c.driver.run_watchdog; temp = c.sim.dev.laser_temp });
}

-- The effects of one round of `watchdog_loop`, through its pointer.
unfoldable pub act_round : Closed → Closed
act_round c = elim c.seen [
  | none ↦ c
  | some r ↦
      let (how, regs, d) = watchdog_loop (some c.sim.dev) c.driver (r ∷ []) in
      record {
        sim = elim regs [ none ↦ c.sim | some dev ↦ record (c.sim) { dev = dev } ];
        driver = d;
        seen = none;
      }
]

unfoldable pub happen : Event → Closed → Closed
unfolding look_round act_round
happen (device x) c = record c { sim = (physics_step x.memory x.draw c.sim).0 }
happen look c = look_round c
happen act c = act_round c

pub happen_all : List Event → Closed → Closed
happen_all [] c = c
happen_all (e ∷ es) c = happen_all es (happen e c)

-- The watchdog looks and acts in turn, and from one look to the act behind the next there are at most `k` rounds
-- of the device. `n` have passed since the last look that was acted upon, and `m` since the one that was
-- not, if there is one.
abbrev pub Prompt : ℕ → ℕ → Option ℕ → List Event → Type 0
Prompt k n m [] = Unit
Prompt k n none (device x ∷ es) = (n < k) × Prompt k (suc n) none es
Prompt k n (some m) (device x ∷ es) = (n < k) × Prompt k (suc n) (some (suc m)) es
Prompt k n none (look ∷ es) = Prompt k n (some 0) es
Prompt k n (some m) (look ∷ es) = ⊥
Prompt k n none (act ∷ es) = ⊥
Prompt k n (some m) (act ∷ es) = Prompt k m none es
