-- ===== src/Bench.antt =====
-- The programs that measure: examples/calibrate_clock.cpp, examples/std_baseline.cpp, benchmarks/ and tests/test_metrics.cpp,
-- test_sim_phy.cpp. `now n` is what reading number `n` of PorthClock::now_precise returns; what is measured between
-- two readings takes none itself, unless it is said. `sort` stands for std::ranges::sort.
pub mod Overhead
pub mod Simulated
pub mod Cycle
use porth_core.Base.{
  ℕ, zero, suc, ◌+◌, ◌-◌, ◌*◌, ◌^◌, Bool, Option, none, some, List, [], ◌∷◌, u64, get_elem?,
  if◌then◌else◌,
}
use porth_core.Base.Int.{ℤ}
use porth_core.Clock.{wait_cycles}
use porth_core.Phy.{Float, Phy, set_config, standard_snr_db, target_cycles}
use porth_core.Ring.{Ring, Descriptor, blank, create, push, pop}
use porth_core.Metric.{Metric, new_metric, record_sample, save_to_file}
use porth_core.Metric.Report.{Double, print_stats, save_markdown_report}

module _ (now : ℕ → ℕ) where
  -- `t2 - t1`, for the readings `i` and `j`, in uint64_t.
  abbrev pub between : ℕ → ℕ → ℕ
  between i j = u64 (now j + 2 ^ 64 - now i)

  -- A loop of `n` measurements, from reading `i` on.
  unfoldable pub measure : ℕ → ℕ → Metric → Metric
  measure zero i m = m
  measure (suc n) i m = measure n (i + 2) (record_sample (between i (i + 1)) m)

  -- The loops of porth_bench.cpp: `runs` of them with `n` measurements each.
  unfoldable pub measure_runs : ℕ → ℕ → ℕ → Metric → Metric
  measure_runs zero n i m = m
  measure_runs (suc runs) n i m = measure_runs runs n (i + 2 * n) (measure n i m)

  -- The samples of calibrate_clock.cpp, from reading `i` on.
  unfoldable pub overhead_samples : ℕ → ℕ → List ℕ
  overhead_samples zero i = []
  overhead_samples (suc n) i = between i (i + 1) ∷ overhead_samples n (i + 2)

  -- One register access of tests/test_sim_phy.cpp, between two readings: the busy-wait of the PHY reads the clock
  -- in between. With the sample, and the number of the next reading.
  unfoldable pub timed_read : ℕ → ℕ → ℕ → Option (ℕ × ℕ)
  timed_read fuel target i = elim (wait_cycles now fuel target (i + 1)) [
    | none ↦ none
    | some j ↦ some (between i (j + 1), j + 2)
  ]

  -- The loop of tests/test_sim_phy.cpp, by the cycles that the PHY waits in each access.
  unfoldable pub timed_reads : ℕ → List ℕ → ℕ → Metric → Option Metric
  timed_reads fuel [] i m = some m
  timed_reads fuel (target ∷ targets) i m = elim (timed_read fuel target i) [
    | none ↦ none
    | some (sample, next) ↦ timed_reads fuel targets next (record_sample sample m)
  ]

-- `sample_count` and `median_index` of calibrate_clock.cpp.
abbrev pub sample_count : ℕ
sample_count = 1000

abbrev pub median_index : ℕ
median_index = 500

-- What calibrate_clock.cpp prints: the frequency in MHz, the cycles of a nanosecond, the median overhead in cycles
-- and in nanoseconds; `none` is a read out of bounds.
pub record Calibration {ℓ} (F : Type ℓ) : Type ℓ where
  pub frequency_mhz : F
  pub cycles_per_ns : F
  pub median_cycles : Option ℕ
  pub overhead_ns : Option F

-- `elapsed_ns` is the difference of the steady clock's readings.
unfoldable pub calibrate_clock :
    (dbl : Double) → (ℕ → ℕ) → (List ℕ → List ℕ) → ℕ → Calibration dbl.F
calibrate_clock dbl now sort elapsed_ns =
    let elapsed_cycles = between now 0 1 in
    let cycles_per_ns = dbl.div (dbl.from_u64 elapsed_cycles) (dbl.from_u64 elapsed_ns) in
    let samples = overhead_samples now sample_count 2 in
    let median_cycles = get_elem? (sort samples) median_index in
    record {
      frequency_mhz = dbl.mul cycles_per_ns (dbl.decimal 1000 0);
      cycles_per_ns = cycles_per_ns;
      median_cycles = median_cycles;
      overhead_ns = elim median_cycles [
        | none ↦ none
        | some x ↦ some (dbl.div (dbl.from_u64 x) cycles_per_ns)
      ];
    }

-- `iterations` and `samples_per_run` of porth_bench.cpp.
abbrev pub bench_iterations : ℕ
bench_iterations = 10

abbrev pub samples_per_run : ℕ
samples_per_run = 100000

-- porth_bench.cpp: its metric, the figures that it prints, and those that it appends to its file.
unfoldable pub porth_bench :
    (dbl : Double)
    → (ℕ → ℕ)
    → (List ℕ → List ℕ)
    → Bool
    → Metric × List (Option dbl.F) × List (Option dbl.F)
porth_bench dbl now sort opens =
    let cycles_per_ns = dbl.decimal 24 1 in
    let total_samples = bench_iterations * samples_per_run in
    let global_metric =
      measure_runs now bench_iterations samples_per_run 0 (new_metric total_samples) in
    (
      global_metric,
      print_stats dbl sort global_metric cycles_per_ns,
      save_markdown_report dbl sort opens global_metric cycles_per_ns,
    )

-- `iterations` of porth_vs_std.cpp and of std_baseline.cpp.
abbrev pub std_iterations : ℕ
std_iterations = 100000

-- porth_vs_std.cpp: what it prints of the socket's calls and of the other path.
unfoldable pub porth_vs_std :
    (dbl : Double) → (ℕ → ℕ) → (List ℕ → List ℕ) → List (Option dbl.F) × List (Option dbl.F)
porth_vs_std dbl now sort =
    let cycles_per_ns = dbl.decimal 24 1 in
    let std_results = measure now std_iterations 0 (new_metric std_iterations) in
    let porth_results =
      measure now std_iterations (2 * std_iterations) (new_metric std_iterations) in
    (
      print_stats dbl sort std_results cycles_per_ns,
      print_stats dbl sort porth_results cycles_per_ns,
    )

-- std_baseline.cpp: the exit code and what it prints; `opened` is whether there is a socket.
unfoldable pub std_baseline :
    (dbl : Double) → (ℕ → ℕ) → (List ℕ → List ℕ) → Bool → ℕ × List (Option dbl.F)
std_baseline dbl now sort opened =
    let std_metric = measure now std_iterations 0 (new_metric std_iterations) in
    if opened then (0, print_stats dbl sort std_metric (dbl.decimal 240002 7)) else (1, [])

-- `sample_count` of tests/test_metrics.cpp, and the test: what it prints, and the lines that it saves.
abbrev pub stress_samples : ℕ
stress_samples = 1000000

unfoldable pub test_metrics :
    (dbl : Double) → (ℕ → ℕ) → (List ℕ → List ℕ) → List (Option dbl.F) × List (ℕ × ℕ)
test_metrics dbl now sort =
    let metric = measure now stress_samples 0 (new_metric stress_samples) in
    (print_stats dbl sort metric (dbl.decimal 24 3), save_to_file metric)

-- What one access of tests/test_sim_phy.cpp meets: the PHY's temperature, and the two draws.
pub record Access {ℓ} (F : Type ℓ) : Type ℓ where
  pub temp : ℕ
  pub jitter : ℤ
  pub draw : F

-- `sample_count` of tests/test_sim_phy.cpp.
abbrev pub phy_samples : ℕ
phy_samples = 1000

-- tests/test_sim_phy.cpp, with the cycles that each of its accesses waits; the physics thread only changes the
-- temperature of the PHY. `fuel` bounds the readings of one wait.
module _ (fl : Float) (fec_error_rate cycles_per_ns : fl.F) where
  unfoldable pub access_delays : Phy → List (Access fl.F) → List ℕ
  access_delays phy [] = []
  access_delays phy (a ∷ rest) =
      target_cycles fl fec_error_rate cycles_per_ns (record phy { current_temp_mc = a.temp })
        standard_snr_db a.jitter a.draw
      ∷ access_delays phy rest

  unfoldable pub test_sim_phy : (ℕ → ℕ) → ℕ → Phy → List (Access fl.F) → Option Metric
  test_sim_phy now fuel phy accesses =
      timed_reads now fuel (access_delays (set_config 100 25 phy) accesses) 0
        (new_metric phy_samples)

-- porth_perf_suite.cpp: `n` rounds of its benchmark, with what `out` holds after them.
unfoldable pub bm_ring_buffer_latency : ℕ → ℕ → Descriptor → Ring → Descriptor → Ring × Descriptor
bm_ring_buffer_latency size zero desc ring out = (ring, out)
bm_ring_buffer_latency size (suc n) desc ring out =
    let (_, ring') = push size ring desc in
    let (_, out', ring'') = pop size ring' out in bm_ring_buffer_latency size n desc ring'' out'
