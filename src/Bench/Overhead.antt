-- ===== src/Bench/Overhead.antt =====
-- What the measuring programs record, over a clock that rises: no sample is lost, and none is out of the clock's range,
-- also where the 64-bit counter wraps.
use mathlib.Core.Path.{subst}
use mathlib.Core.List.{Mem, forall_mem-cons, mem-cons_self, mem-cons_of_mem, not-mem-nil}
use mathlib.Core.List.Perm
use native.Mathlib.Bridge.{le_prop}
use porth_core.Base.{
  ℕ, zero, suc, ◌+◌, ◌-◌, ◌*◌, ◌^◌, ◌≤◌, ◌<◌, ◌≡◌, refl, sym, ap, ap₂, ◌∙◌, arith, Bool, some, List,
  [], ◌∷◌, ◌++◌, All, length, get_elem?,
}
use porth_core.Clock.{IsRising}
use porth_core.Metric.{Metric, new_metric, record_sample, record_all, recorded}
use porth_core.Metric.Samples.{record_all-fresh, has_elem}
use porth_core.Metric.Report.{Double}
use porth_core.Metric.Report.Order.{Sorts, length-perm}
use porth_core.Bench.{
  between, measure, measure_runs, overhead_samples, calibrate_clock, sample_count, median_index,
  porth_bench, bench_iterations, samples_per_run,
}

-- From a reading to a later one the difference is the cycles between them, wherever the counter wraps.
pub between-exact :
    {now : ℕ → ℕ} {gap : ℕ} (r : IsRising now gap) (i j : ℕ)
    → r.cycles i ≤ r.cycles j
    → r.cycles j < r.cycles i + 2 ^ 64
    → between now i j ≡ r.cycles j - r.cycles i
between-exact r i j up fits = omega (arith, r.cut i, r.cut j, up, fits)

-- A sample of the clock itself.
abbrev pub IsTick : ℕ → ℕ → Type 0
IsTick gap x = (1 ≤ x) × (x ≤ gap)

overhead_samples-IsTick :
    {now : ℕ → ℕ} {gap : ℕ} (r : IsRising now gap) (n i : ℕ)
    → gap < 2 ^ 64
    → All (IsTick gap) (overhead_samples now n i)
unfolding overhead_samples
overhead_samples-IsTick r zero i fits = tt
overhead_samples-IsTick {now} r (suc n) i fits =
    let up = r.rises i in
    let near = r.steady i in
    let exact = between-exact r i (i + 1) (omega (arith, up)) (omega (arith, near)) in
    (
      (omega (arith, exact, up), omega (arith, exact, near)),
      overhead_samples-IsTick r n (i + 2) fits,
    )

length-overhead_samples : (now : ℕ → ℕ) (n i : ℕ) → length (overhead_samples now n i) ≡ n
unfolding overhead_samples
length-overhead_samples now zero i = refl
length-overhead_samples now (suc n) i = ap suc (length-overhead_samples now n (i + 2))

overhead_samples-append :
    (now : ℕ → ℕ) (n k i : ℕ)
    → overhead_samples now n i ++ overhead_samples now k (i + 2 * n)
      ≡ overhead_samples now (n + k) i
unfolding overhead_samples
overhead_samples-append now zero k i =
    ap₂ (λ a b. overhead_samples now a b) (omega arith) (omega arith)
overhead_samples-append now (suc n) k i =
    ap
      (λ (j : ℕ).
        between now i (i + 1) ∷ (overhead_samples now n (i + 2) ++ overhead_samples now k j))
      (omega arith)
    ∙ ap (λ l. between now i (i + 1) ∷ l) (overhead_samples-append now n k (i + 2))
    ∙ ap (λ (j : ℕ). overhead_samples now j i) next
  where
    next : suc (n + k) ≡ suc n + k
    next = omega arith

record_all-append :
    (xs ys : List ℕ) (m : Metric) → record_all (xs ++ ys) m ≡ record_all ys (record_all xs m)
unfolding record_all
record_all-append [] ys m = refl
record_all-append (x ∷ xs) ys m = record_all-append xs ys (record_sample x m)

-- The loops record their samples one after the other.
measure-record_all :
    (now : ℕ → ℕ) (n i : ℕ) (m : Metric)
    → measure now n i m ≡ record_all (overhead_samples now n i) m
unfolding measure overhead_samples record_all
measure-record_all now zero i m = refl
measure-record_all now (suc n) i m = measure-record_all now n (i + 2) _

measure_runs-record_all :
    (now : ℕ → ℕ) (runs n i : ℕ) (m : Metric)
    → measure_runs now runs n i m ≡ record_all (overhead_samples now (runs * n) i) m
unfolding measure_runs record_all overhead_samples
measure_runs-record_all now zero n i m =
    ap (λ (j : ℕ). record_all (overhead_samples now j i) m) none_left
  where
    none_left : 0 ≡ 0 * n
    none_left = omega arith
measure_runs-record_all now (suc runs) n i m =
    measure_runs-record_all now runs n (i + 2 * n) (measure now n i m)
    ∙ ap (record_all (overhead_samples now (runs * n) (i + 2 * n))) (measure-record_all now n i m)
    ∙ sym (record_all-append (overhead_samples now n i) _ m)
    ∙ ap (λ l. record_all l m) (overhead_samples-append now n (runs * n) i)
    ∙ ap (λ (j : ℕ). record_all (overhead_samples now j i) m) more
  where
    more : n + runs * n ≡ suc runs * n
    more = omega arith

-- Into a new metric that has room for them, all.
measure_runs-recorded :
    (now : ℕ → ℕ) (runs n : ℕ)
    → recorded (measure_runs now runs n 0 (new_metric (runs * n)))
      ≡ overhead_samples now (runs * n) 0
measure_runs-recorded now runs n =
    ap recorded (measure_runs-record_all now runs n 0 (new_metric (runs * n)))
    ∙ record_all-fresh (overhead_samples now (runs * n) 0) (runs * n)
        (omega (arith, length-overhead_samples now (runs * n) 0))

-- The benchmark keeps each of its million measurements, in order, and over a clock that goes up between two readings
-- by at least one cycle and at most `gap`, each is between 1 and `gap`.
pub porth_bench-samples :
    (dbl : Double) {now : ℕ → ℕ} {gap : ℕ} (sort : List ℕ → List ℕ) (opens : Bool)
    (r : IsRising now gap)
    → gap < 2 ^ 64
    → let samples = recorded (porth_bench dbl now sort opens).0 in
      (samples ≡ overhead_samples now (bench_iterations * samples_per_run) 0)
      × All (IsTick gap) samples
unfolding porth_bench
porth_bench-samples dbl {now} {gap} sort opens r fits =
    let all = measure_runs-recorded now bench_iterations samples_per_run in
    (
      all,
      subst (All (IsTick gap)) (sym all)
          (overhead_samples-IsTick r (bench_iterations * samples_per_run) 0 fits),
    )

Mem-all :
    {P : ℕ → Type 0} (xs : List ℕ) {x : ℕ} → ((y : ℕ) → IsProp (P y)) → All P xs → Mem x xs → P x
Mem-all [] prop h m = absurd (not-mem-nil m)
Mem-all (y ∷ ys) {x} prop (h, hs) m = (forall_mem-cons prop).1 (h, λ z k. Mem-all ys prop hs k) x m

get_elem?-Mem : (xs : List ℕ) (i : ℕ) {x : ℕ} → get_elem? xs i ≡ some x → Mem x xs
get_elem?-Mem [] i e = absurd (cc)
get_elem?-Mem (y ∷ ys) zero {x} e =
    let same : y ≡ x = ground arith in subst (λ z. Mem z (y ∷ ys)) same mem-cons_self
get_elem?-Mem (y ∷ ys) (suc i) e = mem-cons_of_mem y (get_elem?-Mem ys i e)

IsTick-prop : {gap : ℕ} (x : ℕ) → IsProp (IsTick gap x)
IsTick-prop x = hlevel (le_prop)

-- The samples of a clock whose first two readings are left out.
overhead_samples-later :
    (now : ℕ → ℕ) (n i : ℕ)
    → overhead_samples (λ k. now (k + 2)) n i ≡ overhead_samples now n (i + 2)
unfolding overhead_samples
overhead_samples-later now zero i = refl
overhead_samples-later now (suc n) i =
    ap₂ (λ (j : ℕ) l. between now (i + 2) j ∷ l) (omega arith)
      (overhead_samples-later now n (i + 2))

-- The calibration reads its median in bounds, for every sort that returns an ascending permutation, and it is one of
-- the samples taken: over a clock that goes up by at least one cycle and at most `gap` from one reading to the
-- next, from the third reading on, it is between 1 and `gap`.
pub calibrate_clock-median :
    (dbl : Double) (now : ℕ → ℕ) {gap : ℕ} (sort : List ℕ → List ℕ) (elapsed_ns : ℕ)
    (r : IsRising (λ n. now (n + 2)) gap)
    → Sorts sort
    → gap < 2 ^ 64
    → (x : ℕ) × ((calibrate_clock dbl now sort elapsed_ns).median_cycles ≡ some x) × IsTick gap x
unfolding calibrate_clock
calibrate_clock-median dbl now {gap} sort elapsed_ns r s fits =
    let samples = overhead_samples now sample_count 2 in
    let size : length (sort samples) ≡ sample_count =
      length-perm (s.permutes samples) ∙ length-overhead_samples now sample_count 2 in
    let (x, e) = has_elem (sort samples) median_index (omega (arith, size)) in
    let ticks : All (IsTick gap) samples =
      subst (All (IsTick gap)) (overhead_samples-later now sample_count 0)
        (overhead_samples-IsTick r sample_count 0 fits) in
    let taken : Mem x samples =
      (Perm.mem_iff (s.permutes samples)).0 (get_elem?-Mem (sort samples) median_index e) in
    (x, e, Mem-all samples IsTick-prop ticks taken)
