-- ===== src/Bench/Simulated.antt =====
-- What tests/test_sim_phy.cpp measures: the delays that the PHY models.
use porth_core.Base.{
  ℕ, suc, ◌+◌, ◌*◌, ◌^◌, ◌≤◌, ◌<◌, ◌≡◌, refl, ap, arith, some, List, [], ◌∷◌, All, length,
}
use porth_core.Clock.{IsRising, wait_cycles-ends}
use porth_core.Phy.{Float, Phy, set_config}
use porth_core.Metric.{Metric, new_metric, record_sample, record_all, recorded}
use porth_core.Metric.Samples.{record_all-fresh}
use porth_core.Bench.{
  between, timed_read, timed_reads, Access, access_delays, test_sim_phy, phy_samples,
}
use porth_core.Bench.Overhead.{between-exact}

-- Cycles to wait for which `fuel` is enough, and which leave room in the counter.
abbrev pub Fits : ℕ → ℕ → ℕ → Type 0
Fits fuel gap target = (target < fuel) × (target + 3 * gap < 2 ^ 64)

-- Samples that are at least the delays, and at most three gaps longer.
abbrev pub Meets : ℕ → List ℕ → List ℕ → Type 0
Meets gap [] [] = Unit
Meets gap (t ∷ ts) (x ∷ xs) = (t ≤ x) × (x ≤ t + 3 * gap) × Meets gap ts xs
Meets gap _ _ = ⊥

length-Meets : (gap : ℕ) (ts xs : List ℕ) → Meets gap ts xs → length xs ≡ length ts
length-Meets gap [] [] h = refl
length-Meets gap (t ∷ ts) (x ∷ xs) (_, _, h) = ap suc (length-Meets gap ts xs h)
length-Meets gap [] (x ∷ xs) h = absurd h
length-Meets gap (t ∷ ts) [] h = absurd h

timed_read-meets :
    {now : ℕ → ℕ} {gap : ℕ} (r : IsRising now gap) (fuel target i : ℕ)
    → Fits fuel gap target
    → (x next : ℕ) × (timed_read now fuel target i ≡ some (x, next))
      × (target ≤ x)
      × (x ≤ target + 3 * gap)
unfolding timed_read
timed_read-meets {now} {gap} r fuel target i (enough, room) =
    let (j, e, lo, hi) = wait_cycles-ends r fuel target (i + 1) (omega (arith, room)) enough in
    let exact =
      between-exact r i (j + 1) (omega (arith, r.rises i, r.rises j, lo))
        (omega (arith, r.steady i, r.steady j, hi, room)) in
    (
      between now i (j + 1),
      j + 2,
      rw (e, timed_read) refl,
      omega (arith, exact, r.rises i, r.rises j, lo),
      omega (arith, exact, r.steady i, r.steady j, hi),
    )

timed_reads-Meets :
    {now : ℕ → ℕ} {gap : ℕ} (r : IsRising now gap) (fuel : ℕ) (targets : List ℕ) (i : ℕ)
    (m : Metric)
    → All (Fits fuel gap) targets
    → (xs : List ℕ) × (timed_reads now fuel targets i m ≡ some (record_all xs m))
      × Meets gap targets xs
unfolding timed_reads record_all
timed_reads-Meets r fuel [] i m h = ([], refl, tt)
timed_reads-Meets {now} r fuel (t ∷ ts) i m (h, hs) =
    let (x, next, e, lo, hi) = timed_read-meets r fuel t i h in
    let (xs, f, meets) = timed_reads-Meets r fuel ts next (record_sample x m) hs in
    (x ∷ xs, rw (e, timed_reads) f, (lo, hi, meets))

length-access_delays :
    (fl : Float) (fec_error_rate cycles_per_ns : fl.F) (phy : Phy) (accesses : List (Access fl.F))
    → length (access_delays fl fec_error_rate cycles_per_ns phy accesses) ≡ length accesses
unfolding access_delays
length-access_delays fl fec_error_rate cycles_per_ns phy [] = refl
length-access_delays fl fec_error_rate cycles_per_ns phy (a ∷ rest) =
    ap suc (length-access_delays fl fec_error_rate cycles_per_ns phy rest)

-- Over a clock that goes up between two readings by at least one cycle and at most `gap`, the test ends and records
-- one sample for each of its accesses, at most 1000, and every sample is at least the delay that the PHY
-- computes for that access and at most three gaps more, also where the counter wraps. (The delays leave room
-- in 64 bits, and `fuel` is more than each.)
pub test_sim_phy-Meets :
    (fl : Float) (fec_error_rate cycles_per_ns : fl.F) {now : ℕ → ℕ} {gap : ℕ}
    (r : IsRising now gap) (fuel : ℕ) (phy : Phy) (accesses : List (Access fl.F))
    → All
        (Fits fuel gap)
        (access_delays fl fec_error_rate cycles_per_ns (set_config 100 25 phy) accesses)
    → length accesses ≤ phy_samples
    → (m : Metric) × (test_sim_phy fl fec_error_rate cycles_per_ns now fuel phy accesses ≡ some m)
      × Meets gap
          (access_delays fl fec_error_rate cycles_per_ns (set_config 100 25 phy) accesses)
          (recorded m)
unfolding test_sim_phy
test_sim_phy-Meets fl fec_error_rate cycles_per_ns r fuel phy accesses fits few =
    let targets = access_delays fl fec_error_rate cycles_per_ns (set_config 100 25 phy) accesses in
    let (xs, e, meets) = timed_reads-Meets r fuel targets 0 (new_metric phy_samples) fits in
    let kept = record_all-fresh xs phy_samples (
      omega (
        arith,
        length-Meets _ targets xs meets,
        length-access_delays fl fec_error_rate cycles_per_ns (set_config 100 25 phy) accesses,
        few,
      )) in
    (record_all xs (new_metric phy_samples), e, rw kept meets)
