-- ===== src/Clock.antt =====
-- include/porth/PorthClock.hpp: the cycle counter, and the busy-wait on it of
-- `PorthSimPHY::apply_protocol_delay`. The counter itself is hardware: `now n` is what the reading
-- number `n` of it returns.
use native.Mathlib.Nat.{le_trans}
use porth_core.Base.{
  ℕ, zero, suc, ◌+◌, ◌-◌, ◌^◌, ◌≤◌, ◌<◌, ◌≡◌, Option, none, some, arith, u64, ltb, if◌then◌else◌,
  Bool-cases, inl, inr, refl,
}

module _ (now : ℕ → ℕ) where
  -- `while (now_precise() - start_cycles < target_cycles) cpu_relax();` on fuel, from reading `i` on. The
  -- subtraction is that of uint64_t. The result is the number of the reading that ended the loop.
  pub spin : ℕ → ℕ → ℕ → ℕ → Option ℕ
  spin zero start target i = none
  spin (suc fuel) start target i =
      let rest = spin fuel start target (i + 1) in
      if ltb (u64 (now i + 2 ^ 64 - start)) target then rest else some i

  -- `start_cycles` is reading `i`, and the loop reads on from there.
  pub wait_cycles : ℕ → ℕ → ℕ → Option ℕ
  wait_cycles fuel target i = spin fuel (now i) target (i + 1)

-- An invariant counter: it counts `cycles`, cut to 64 bits, and between one reading and the next goes
-- up by at least one cycle and at most `gap`.
pub record IsRising (now : ℕ → ℕ) (gap : ℕ) : Type 0 where
  pub cycles : ℕ → ℕ
  pub cut : (n : ℕ) → now n ≡ u64 (cycles n)
  pub rises : (n : ℕ) → cycles n + 1 ≤ cycles (n + 1)
  pub steady : (n : ℕ) → cycles (n + 1) ≤ cycles n + gap

-- What the loop returns, for a wait that began at cycle `c0`.
abbrev pub Waited : {now : ℕ → ℕ} {gap : ℕ} → IsRising now gap → ℕ → ℕ → Option ℕ → Type 0
Waited {gap = gap} r c0 target out =
    (j : ℕ) × (out ≡ some j) × (c0 + target ≤ r.cycles j) × (r.cycles j ≤ c0 + target + gap)

spin-Waited :
    {now : ℕ → ℕ} {gap : ℕ} (r : IsRising now gap) (fuel c0 start target i : ℕ)
    → start ≡ u64 c0
    → c0 ≤ r.cycles i
    → r.cycles i ≤ c0 + target + gap
    → target + gap < 2 ^ 64
    → c0 + target - r.cycles i < fuel
    → Waited r c0 target (spin now fuel start target i)
unfolding spin
spin-Waited r zero c0 start target i e lo hi fits f = elim f [ ]
spin-Waited {now} {gap} r (suc fuel) c0 start target i e lo hi fits f =
    elim (Bool-cases (ltb (u64 (now i + 2 ^ 64 - start)) target)) [
      | inl more ↦
          let early : r.cycles i < c0 + target = ground (arith, r.cut i) in
          rw more (
            spin-Waited r fuel c0 start target (i + 1) e (le_trans lo (omega (arith, r.rises i)))
              (omega (arith, r.steady i, early)) fits (omega (arith, r.rises i, early)))
      | inr done ↦ rw done (i, refl, ground (arith, r.cut i), hi)
    ]

pub wait_cycles-ends :
    {now : ℕ → ℕ} {gap : ℕ} (r : IsRising now gap) (fuel target i : ℕ)
    → target + gap < 2 ^ 64
    → target < fuel
    → Waited r (r.cycles i) target (wait_cycles now fuel target i)
unfolding wait_cycles
wait_cycles-ends {now} r fuel target i fits f =
    spin-Waited r fuel (r.cycles i) (now i) target (i + 1) (r.cut i) (omega (arith, r.rises i))
      (omega (arith, r.steady i)) fits (omega (arith, r.rises i))
