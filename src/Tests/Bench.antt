-- ===== src/Tests/Bench.antt =====
-- The measuring programs over a counter that is about to wrap.
use porth_core.Base.{ℕ, ◌+◌, ◌-◌, ◌*◌, ◌^◌, ◌≡◌, refl, arith, some, List, [], ◌∷◌, u64}
use porth_core.Base.Int.{pos}
use porth_core.Clock.{IsRising}
use porth_core.Phy.{
  new_phy, set_config, total_delay_ns, target_cycles, get_fec_penalty, calculate_thermal_jitter,
}
use porth_core.Ring.{Descriptor}
use porth_core.Ring.Inv.{IsSize}
use porth_core.Metric.{Metric, recorded}
use porth_core.Tests.Metric.{whole, sort, sort-Sorts}
use porth_core.Tests.Phy.{fixed}
use porth_core.Bench.{calibrate_clock, Access, access_delays, test_sim_phy}
use porth_core.Bench.Overhead.{IsTick, calibrate_clock-median}
use porth_core.Bench.Simulated.{Meets, test_sim_phy-Meets}

abbrev counter : ℕ → ℕ
counter n = u64 (2 ^ 64 - 12 + 5 * n)

counter-IsRising : IsRising counter 5
counter-IsRising = record {
  cycles = λ n. 2 ^ 64 - 12 + 5 * n;
  cut = λ n. refl;
  rises = λ n. omega arith;
  steady = λ n. omega arith;
}

later-IsRising : IsRising (λ n. counter (n + 2)) 5
later-IsRising = record {
  cycles = λ n. 2 ^ 64 - 2 + 5 * n;
  cut = λ n. omega arith;
  rises = λ n. omega arith;
  steady = λ n. omega arith;
}

calibrate_clock-median_example :
    (x : ℕ) × ((calibrate_clock whole counter sort 1000).median_cycles ≡ some x) × IsTick 5 x
calibrate_clock-median_example =
    calibrate_clock-median whole counter sort 1000 later-IsRising sort-Sorts (omega arith)

-- One access with a jitter of 10 ns, and one with an error.
abbrev accesses : List (Access ℕ)
accesses =
    record { temp = 25000; jitter = pos 10; draw = 9 }
    ∷ record { temp = 45000; jitter = pos 0; draw = 0 }
    ∷ []

test_sim_phy-Meets_example :
    (m : Metric) × (test_sim_phy fixed 1 (10 ^ 12) counter 1000 (new_phy 45 12) accesses ≡ some m)
    × Meets 5
        (access_delays fixed 1 (10 ^ 12) (set_config 100 25 (new_phy 45 12)) accesses)
        (recorded m)
unfolding access_delays target_cycles total_delay_ns get_fec_penalty calculate_thermal_jitter
    set_config
test_sim_phy-Meets_example =
    test_sim_phy-Meets fixed 1 (10 ^ 12) counter-IsRising 1000 (new_phy 45 12) accesses
      ((omega arith, omega arith), ((omega arith, omega arith), tt)) (omega arith)

abbrev packet : Descriptor
packet = record { addr = 4096; len = 64 }

two-IsSize : IsSize 2
two-IsSize = record { k = 1; power = refl; small = omega arith }
