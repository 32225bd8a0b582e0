-- ===== src/Demo/Samples.antt =====
-- The whole measuring loop: its samples, its count of packets and its temperatures.
use porth_core.Base.{
  ℕ, zero, suc, ◌+◌, ◌-◌, ◌≤◌, ◌≡◌, ◌⊎◌, inl, inr, refl, ap, ◌∙◌, arith, true, false, some, List,
  [], ◌∷◌, u64, take, take-nil, Bool-cases,
}
use porth_core.Ring.{Ring}
use porth_core.Ring.Inv.{IsSize}
use porth_core.Telemetry.{Stats}
use porth_core.Metric.{Metric, record_sample, record_all, new_metric, recorded}
use porth_core.Metric.Samples.{record_all-Run, new_metric-IsValid}
use porth_core.Driver.{Driver}
use porth_core.Driver.Accounting.{Linked}
use porth_core.Xdp.{Portal}
use porth_core.Demo.{Cycle, run_telemetry_stress_test}
use porth_core.Demo.Count.{tally, arrivals, IsTopped, Cycled, cycle-Cycled}

-- The packets that the iterations find at the card.
abbrev pub arrived : List Cycle → ℕ
arrived [] = 0
arrived (c ∷ cs) = arrivals c.nic + arrived cs

abbrev pub times : List Cycle → List ℕ
times [] = []
times (c ∷ cs) = c.elapsed ∷ times cs

-- What a run of the loop comes to: it returns; of the transmits it tried, all but at most the last one went
-- through; the metric has recorded the times of these, in order, and nothing else; each packet of the
-- card and each transmit is counted once, modulo 2^64, as sent or as dropped; and the highest
-- temperature is at least the current one.
pub record Ran (size : ℕ) (p : Portal) (left i : ℕ) (cs : List Cycle) (s : Stats) (d : Driver)
    (m : Metric) : Type 0 where
  pub tries : ℕ
  pub sent : ℕ
  pub last : Driver
  pub ring : Ring
  pub after : Stats
  pub metric : Metric
  pub result : run_telemetry_stress_test size p left i cs d m ≡ some (tries, sent, last, metric)
  pub linked : Linked size ring after last
  pub bound : tries ≤ left
  pub failed : (tries ≡ sent) ⊎ (tries ≡ suc sent)
  pub samples : metric ≡ record_all (take sent (times cs)) m
  pub counted : tally after ≡ u64 (tally s + (arrived (take tries cs) + tries))
  pub topped : IsTopped after

-- No iteration.
nothing :
    {size : ℕ} {r : Ring} {p : Portal} {left i : ℕ} {cs : List Cycle} {s : Stats} {d : Driver}
    {m : Metric}
    → Linked size r s d
    → IsTopped s
    → run_telemetry_stress_test size p left i cs d m ≡ some (0, 0, d, m)
    → Ran size p left i cs s d m
unfolding record_all
nothing l top e = record {
  tries = 0;
  sent = 0;
  last = _;
  ring = _;
  after = _;
  metric = _;
  result = e;
  linked = l;
  bound = omega arith;
  failed = inl refl;
  samples = refl;
  counted = omega arith;
  topped = top;
}

-- The first iteration, and those behind it.
one_more :
    {size : ℕ} {p : Portal} {left i : ℕ} {c : Cycle} {cs : List Cycle} {s : Stats} {d : Driver}
    {m : Metric} (x : Cycled size p i c s d m)
    → x.goes_on ≡ true
    → Ran size p left (i + 1) cs x.after x.last (record_sample c.elapsed m)
    → Ran size p (suc left) i (c ∷ cs) s d m
unfolding run_telemetry_stress_test record_all
one_more x e ran = record {
  tries = suc ran.tries;
  sent = suc ran.sent;
  last = ran.last;
  ring = ran.ring;
  after = ran.after;
  metric = ran.metric;
  result = ground (arith, x.result, e, ran.result);
  linked = ran.linked;
  bound = omega (arith, ran.bound);
  failed = ground (arith, ran.failed);
  samples = ran.samples;
  counted = omega (arith, x.counted, ran.counted);
  topped = ran.topped;
}

-- The iteration whose transmit fails.
last_one :
    {size : ℕ} {p : Portal} {left i : ℕ} {c : Cycle} {cs : List Cycle} {s : Stats} {d : Driver}
    {m : Metric} (x : Cycled size p i c s d m)
    → x.goes_on ≡ false
    → Ran size p (suc left) i (c ∷ cs) s d m
unfolding run_telemetry_stress_test record_all
last_one {c = c} {cs = cs} x e = record {
  tries = 1;
  sent = 0;
  last = x.last;
  ring = x.ring;
  after = x.after;
  metric = _;
  result = ground (arith, x.result, e);
  linked = x.linked;
  bound = omega arith;
  failed = inr refl;
  samples = refl;
  counted = omega (arith, x.counted);
  topped = x.topped;
}

-- From any iteration on, the measuring loop of the demonstration, on a valid ring with linked statistics whose
-- highest temperature is at least the current one, comes out as `Ran` says, whatever the card, the
-- device's thread, the clock and the temperature register do.
pub run_telemetry_stress_test-Ran :
    {size : ℕ} (p : Portal) (left i : ℕ) (cs : List Cycle) {r : Ring} {s : Stats} {d : Driver}
    (m : Metric)
    → IsSize size
    → Linked size r s d
    → IsTopped s
    → Ran size p left i cs s d m
unfolding run_telemetry_stress_test
run_telemetry_stress_test-Ran p zero i cs m z l top = nothing l top refl
run_telemetry_stress_test-Ran p (suc left) i [] m z l top = nothing l top refl
run_telemetry_stress_test-Ran p (suc left) i (c ∷ cs) m z l top =
    let x = cycle-Cycled p i c m z l top in
    elim (Bool-cases x.goes_on) [
      | inl more ↦
          one_more x more
            (run_telemetry_stress_test-Ran p left (i + 1) cs {r = x.ring} _ z x.linked x.topped)
      | inr over ↦ last_one x over
    ]

take-take : (n k : ℕ) (xs : List ℕ) → k ≤ n → take n (take k xs) ≡ take k xs
take-take n zero xs h = take-nil n
take-take zero (suc k) xs h = absurd (omega arith)
take-take (suc n) (suc k) [] h = refl
take-take (suc n) (suc k) (x ∷ xs) h = ap (λ l. x ∷ l) (take-take n k xs (omega arith))

-- With a metric that has room for `left` samples, as the demonstration's has for its 50000 iterations, the
-- loop loses no time: what is recorded are the times of exactly the transmits that went through.
pub keeps_all_times :
    {size : ℕ} (p : Portal) (left : ℕ) (cs : List Cycle) {r : Ring} {s : Stats} {d : Driver}
    → IsSize size
    → Linked size r s d
    → IsTopped s
    → (tries : ℕ) × (sent : ℕ) × (last : Driver) × (m : Metric) × (run_telemetry_stress_test size p
          left 0 cs d
          (new_metric left)
        ≡ some (tries, sent, last, m))
      × (recorded m ≡ take sent (times cs))
unfolding new_metric
keeps_all_times p left cs {r} z l top =
    let ran = run_telemetry_stress_test-Ran p left 0 cs {r = r} (new_metric left) z l top in
    let run =
      record_all-Run (take ran.sent (times cs)) (new_metric left) (new_metric-IsValid left) in
    let small : ran.sent ≤ left = ground (arith, ran.bound, ran.failed) in
    (
      ran.tries,
      ran.sent,
      ran.last,
      ran.metric,
      ran.result,
      ap recorded ran.samples
          ∙ run.kept
          ∙ take-take (left - 0) ran.sent (times cs) (omega (arith, small)),
    )
