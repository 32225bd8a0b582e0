-- ===== src/Tests/Phy.antt =====
-- The delays and the clock of include/porth/PorthSimPHY.hpp and PorthClock.hpp at concrete inputs.
use porth_core.Base.{ℕ, ◌+◌, ◌-◌, ◌*◌, ◌/◌, ◌^◌, u64, ltb}
use porth_core.Phy.{Float, Phy, new_phy}

-- Decimal fractions in units of 10^-12.
abbrev pub fixed : Float
fixed = record {
  F = ℕ;
  decimal = λ m k. m * 10 ^ 12 / 10 ^ k;
  mul = λ x y. x * y / 10 ^ 12;
  lt = ltb;
  from_u64 = λ n. n * 10 ^ 12;
  to_u64 = λ x. x / 10 ^ 12;
}

abbrev phy : Phy
phy = new_phy 100 20

-- A link of 10 ns and a jitter of 25.
abbrev short_link : Phy
short_link = new_phy 10 25

-- A counter of five cycles between readings, about to wrap.
abbrev counter : ℕ → ℕ
counter n = u64 (2 ^ 64 - 12 + 5 * n)
