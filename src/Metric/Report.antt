-- ===== src/Metric/Report.antt =====
-- include/porth/PorthMetric.hpp: the figures of `print_stats` and `save_markdown_report`. Doubles enter by the interface
-- `Double`.
pub mod Squares
pub mod Order
use porth_core.Base.{
  ℕ, ◌+◌, ◌*◌, List, [], ◌∷◌, Option, none, some, ◌==◌, if◌then◌else◌, u64, not, Bool,
}
use porth_core.Metric.{Metric, get_sorted_samples, get_percentile}

-- What the class uses of `double`: literals m * 10^-k, the casts from uint64_t and to size_t, arithmetic, std::abs and
-- std::sqrt.
pub record Double : Type 1 where
  pub F : Type 0
  pub decimal : ℕ → ℕ → F
  pub from_u64 : ℕ → F
  pub to_u64 : F → ℕ
  pub add : F → F → F
  pub sub : F → F → F
  pub mul : F → F → F
  pub div : F → F → F
  pub abs : F → F
  pub sqrt : F → F

module _ (dbl : Double) where
  open dbl use {F, decimal, from_u64, to_u64, add, sub, mul, div, abs, sqrt}

  -- `std::accumulate(begin, end, acc)`
  unfoldable pub accumulate : F → List ℕ → F
  accumulate acc [] = acc
  accumulate acc (x ∷ xs) = accumulate (add acc (from_u64 x)) xs

  -- `std::inner_product` of the samples with themselves: the product is one of uint64_t, and only then added to a
  -- double.
  unfoldable pub inner_product : F → List ℕ → F
  inner_product acc [] = acc
  inner_product acc (x ∷ xs) = inner_product (add acc (from_u64 (u64 (x * x)))) xs

  -- In the methods, `count` is m_count.
  unfoldable pub calculate_mean : ℕ → List ℕ → F
  calculate_mean count samples = div (accumulate (decimal 0 0) samples) (from_u64 count)

  unfoldable pub calculate_stdev : ℕ → List ℕ → F → F
  calculate_stdev count samples mean =
      let sq_sum = inner_product (decimal 0 0) samples in
      sqrt (abs (sub (div sq_sum (from_u64 count)) (mul mean mean)))

  -- `none` is a read out of bounds.
  unfoldable pub get_percentile_ns : ℕ → List ℕ → F → F → Option F
  get_percentile_ns count samples percentile cpns =
      let quotient = to_u64 (div (mul percentile (from_u64 count)) (decimal 100 0)) in
      elim (get_percentile count samples quotient) [
        | none ↦ none
        | some sample ↦ some (div (from_u64 sample) cpns)
      ]

  -- The difference of two reads.
  abbrev pub minus : Option F → Option F → Option F
  minus (some a) (some b) = some (sub a b)
  minus _ _ = none

  module _ (sort : List ℕ → List ℕ) where
    -- The figures of `print_stats`, in the order in which they are printed: mean, deviation, interquartile range and
    -- P99.99; none where there is no sample.
    unfoldable pub print_stats : Metric → F → List (Option F)
    print_stats m cycles_per_ns =
        let sorted_samples = get_sorted_samples sort m in
        let mean_cycles = calculate_mean m.count sorted_samples in
        let stdev_cycles = calculate_stdev m.count sorted_samples mean_cycles in
        let q1_ns = get_percentile_ns m.count sorted_samples (decimal 25 0) cycles_per_ns in
        let q3_ns = get_percentile_ns m.count sorted_samples (decimal 75 0) cycles_per_ns in
        let p99_ns = get_percentile_ns m.count sorted_samples (decimal 9999 2) cycles_per_ns in
        if m.count == 0
        then []
        else some (div mean_cycles cycles_per_ns)
          ∷ some (div stdev_cycles cycles_per_ns)
          ∷ minus q3_ns q1_ns
          ∷ p99_ns
          ∷ []

    -- The four rows that `save_markdown_report` writes with `write_markdown_table`: minimum, median, P99.9 and
    -- maximum. `opens` is whether the file can be opened.
    unfoldable pub save_markdown_report : Bool → Metric → F → List (Option F)
    save_markdown_report opens m cycles_per_ns =
        let sorted_samples = get_sorted_samples sort m in
        if not opens
        then []
        else if m.count == 0
        then []
        else get_percentile_ns m.count sorted_samples (decimal 0 0) cycles_per_ns
          ∷ get_percentile_ns m.count sorted_samples (decimal 50 0) cycles_per_ns
          ∷ get_percentile_ns m.count sorted_samples (decimal 999 1) cycles_per_ns
          ∷ get_percentile_ns m.count sorted_samples (decimal 100 0) cycles_per_ns
          ∷ []
