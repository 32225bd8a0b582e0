-- ===== src/Metric.antt =====
-- include/porth/PorthMetric.hpp: the sample buffer. `sort` stands for std::ranges::sort. What is computed in
-- double is in Metric/Report.
pub mod Samples
pub mod Report
use porth_core.Base.{
  ℕ, ◌+◌, ◌-◌, ◌^◌, ◌≤◌, ◌≡◌, List, [], ◌∷◌, Option, none, some, ltb, leb, if◌then◌else◌, length,
  get_elem?, set, take, replicate, u64,
}

pub record Metric : Type 0 where
  pub samples : List ℕ  -- std::vector<uint64_t>
  pub capacity : ℕ  -- size_t
  pub count : ℕ  -- size_t

-- The constructor.
unfoldable pub new_metric : ℕ → Metric
new_metric max_samples = record {
  samples = replicate max_samples 0;
  capacity = max_samples;
  count = 0;
}

-- `record`
unfoldable pub record_sample : ℕ → Metric → Metric
record_sample latency m =
    if ltb m.count m.capacity
    then record m { samples = set m.samples m.count latency; count = m.count + 1 }
    else m

unfoldable pub reset : Metric → Metric
reset m = record m { count = 0 }

-- A run of measurements.
unfoldable pub record_all : List ℕ → Metric → Metric
record_all [] m = m
record_all (x ∷ xs) m = record_all xs (record_sample x m)

-- The range that `get_sorted_samples` copies.
abbrev pub recorded : Metric → List ℕ
recorded m = take m.count m.samples

unfoldable pub get_sorted_samples : (List ℕ → List ℕ) → Metric → List ℕ
get_sorted_samples sort m = sort (recorded m)

-- The read of `get_percentile_ns`, from the quotient that it casts to size_t; `count` is m_count, the index is a
-- size_t, and `none` is a read out of bounds.
unfoldable pub get_percentile : ℕ → List ℕ → ℕ → Option ℕ
get_percentile count samples quotient =
    let idx = if leb count quotient then u64 (count + 2 ^ 64 - 1) else quotient in
    get_elem? samples idx

-- `save_to_file`: the lines, each an index and a sample; the counter runs from `i` to `m_count`.
unfoldable pub save_lines : ℕ → List ℕ → List (ℕ × ℕ)
save_lines i [] = []
save_lines i (x ∷ xs) = (i, x) ∷ save_lines (i + 1) xs

unfoldable pub save_to_file : Metric → List (ℕ × ℕ)
unfolding save_lines
save_to_file m = save_lines 0 (recorded m)
