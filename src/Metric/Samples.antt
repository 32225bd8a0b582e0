-- ===== src/Metric/Samples.antt =====
-- What the buffer keeps, and the order of the percentiles.
use mathlib.Core.Path.{subst}
use porth_core.Base.{
  ℕ, zero, suc, ◌+◌, ◌-◌, ◌^◌, ◌≤◌, ◌<◌, ◌≡◌, refl, sym, ap, ◌∙◌, arith, List, [], ◌∷◌, ◌++◌,
  append-nil, append_assoc, some, leb, if◌then◌else◌, length, length-take, length-set,
  length-replicate, take-long, get_elem?, set, take, take-nil, take-none, take-some, u64, dec_lt,
}
use porth_core.Metric.{
  Metric, record_sample, reset, record_all, recorded, new_metric, get_sorted_samples,
  get_percentile,
}

pub record IsValid (m : Metric) : Type 0 where
  pub storage : length m.samples ≡ m.capacity
  pub bound : m.count ≤ m.capacity

take-set : (xs : List ℕ) (n v : ℕ) → n < length xs → take (suc n) (set xs n v) ≡ take n xs ++ v ∷ []
take-set [] n v h = absurd (omega arith)
take-set (x ∷ xs) zero v h = refl
take-set (x ∷ xs) (suc n) v h = ap (λ l. x ∷ l) (take-set xs n v (omega arith))

-- What a run comes to.
pub record Run (xs : List ℕ) (m n : Metric) : Type 0 where
  pub kept : recorded n ≡ recorded m ++ take (m.capacity - m.count) xs
  pub capacity : n.capacity ≡ m.capacity
  pub valid : IsValid n

-- A run of measurements on a valid buffer keeps what was recorded, and behind it, in order, as many of
-- the new samples as fit; the others are dropped. The buffer neither grows nor moves its capacity, and
-- stays valid.
pub record_all-Run : (xs : List ℕ) (m : Metric) → IsValid m → Run xs m (record_all xs m)
unfolding record_all record_sample
record_all-Run [] m v = record {
  kept = sym (ap (λ l. recorded m ++ l) (take-nil _) ∙ append-nil (recorded m));
  capacity = refl;
  valid = v;
}
record_all-Run (x ∷ xs) m v = elim (dec_lt m.count m.capacity) [
  | yes p ↦
      let m' : Metric = record m { samples = set m.samples m.count x; count = m.count + 1 } in
      let e : record_sample x m ≡ m' = ground (arith, p) in
      let ih : Run xs m' (record_all xs m') =
        record_all-Run xs m'
          (record { storage = length-set m.samples m.count x ∙ v.storage; bound = omega arith }) in
      let next : m.count + 1 ≡ suc m.count = omega arith in
      let more : recorded m' ≡ recorded m ++ x ∷ [] =
        ap (λ k. take k (set m.samples m.count x)) next
        ∙ take-set m.samples m.count x (omega (arith, v.storage)) in
      let room : m.capacity - m.count ≡ suc (m.capacity - (m.count + 1)) = omega arith in
      let kept = take-some (m.capacity - m.count) (m.capacity - (m.count + 1)) x xs room in
      subst (λ k. Run (x ∷ xs) m (record_all xs k)) (sym e)
        (record {
          kept =
              ih.kept
              ∙ ap (λ l. l ++ take (m.capacity - (m.count + 1)) xs) more
              ∙ append_assoc (recorded m) (x ∷ []) _
              ∙ ap (λ l. recorded m ++ l) (sym kept);
          capacity = ih.capacity;
          valid = ih.valid;
        })
  | no p ↦
      let e : record_sample x m ≡ m = ground (arith, p) in
      let ih : Run xs m (record_all xs m) = record_all-Run xs m v in
      let none_fit : m.capacity - m.count ≡ 0 = omega arith in
      subst (λ k. Run (x ∷ xs) m (record_all xs k)) (sym e)
        (record {
          kept =
              ih.kept
              ∙ ap (λ l. recorded m ++ l)
                  (take-none _ xs none_fit ∙ sym (take-none _ (x ∷ xs) none_fit));
          capacity = ih.capacity;
          valid = ih.valid;
        })
]

pub new_metric-IsValid : (n : ℕ) → IsValid (new_metric n)
unfolding new_metric
new_metric-IsValid n = record { storage = length-replicate n 0; bound = omega arith }

-- A new buffer with room for them keeps all of a run's samples.
pub record_all-fresh :
    (xs : List ℕ) (n : ℕ) → length xs ≤ n → recorded (record_all xs (new_metric n)) ≡ xs
unfolding new_metric
record_all-fresh xs n h =
    (record_all-Run xs (new_metric n) (new_metric-IsValid n)).kept
    ∙ take-long (n - 0) xs (omega (arith, h))

-- Nothing of an earlier run shows after `reset`: the next run on a valid buffer is what its first samples
-- are, up to the capacity.
pub reset-forgets :
    (xs : List ℕ) (m : Metric) → IsValid m → recorded (record_all xs (reset m)) ≡ take m.capacity xs
unfolding reset
reset-forgets xs m v =
    (record_all-Run xs (record m { count = 0 })
      (record { storage = v.storage; bound = omega arith })).kept
    ∙ ap (λ n. take n xs) (omega arith)

-- Ascending order.
abbrev pub IsSorted : List ℕ → Type 0
IsSorted xs = (i j x y : ℕ) → i ≤ j → get_elem? xs i ≡ some x → get_elem? xs j ≡ some y → x ≤ y

pub has_elem : (xs : List ℕ) (i : ℕ) → i < length xs → (x : ℕ) × (get_elem? xs i ≡ some x)
has_elem [] i h = absurd (omega arith)
has_elem (x ∷ xs) zero h = (x, refl)
has_elem (x ∷ xs) (suc i) h = has_elem xs i (omega arith)

-- The index that the clamp makes.
clamp : (m : Metric) (q : ℕ) → ℕ
clamp m q = if leb m.count q then u64 (m.count + 2 ^ 64 - 1) else q

clamp-lt : (m : Metric) (q : ℕ) → 0 < m.count → m.count < 2 ^ 64 → clamp m q < m.count
unfolding clamp
clamp-lt m q pos fits = ground arith

clamp_mono : (m : Metric) {q r : ℕ} → 0 < m.count → m.count < 2 ^ 64 → q ≤ r → clamp m q ≤ clamp m r
unfolding clamp
clamp_mono m pos fits h = ground arith

-- A read is in bounds, whatever the quotient.
pub get_percentile-some :
    (m : Metric) (samples : List ℕ) (q : ℕ)
    → length samples ≡ m.count
    → 0 < m.count
    → m.count < 2 ^ 64
    → (x : ℕ) × (get_percentile m.count samples q ≡ some x)
unfolding get_percentile clamp
get_percentile-some m samples q size some_sample fits =
    has_elem samples (clamp m q) (omega (arith, size, clamp-lt m q some_sample fits))

pub length-recorded : (m : Metric) → IsValid m → length (recorded m) ≡ m.count
length-recorded m v = omega (arith, length-take m.count m.samples, v.storage, v.bound)

-- Percentiles of a valid buffer with a sample are always read in bounds, also where the quotient is the
-- count or more, and a larger quotient gives a sample as large or larger, for every sort that keeps the
-- length and puts its result in ascending order.
pub get_percentile_mono :
    (sort : List ℕ → List ℕ) (m : Metric) (q r : ℕ)
    → ((xs : List ℕ) → length (sort xs) ≡ length xs)
    → ((xs : List ℕ) → IsSorted (sort xs))
    → IsValid m
    → 0 < m.count
    → m.count < 2 ^ 64
    → q ≤ r
    → (x y : ℕ) × (get_percentile m.count (get_sorted_samples sort m) q ≡ some x)
      × (get_percentile m.count (get_sorted_samples sort m) r ≡ some y)
      × (x ≤ y)
unfolding get_percentile get_sorted_samples clamp
get_percentile_mono sort m q r same_length sorted v some_sample fits h =
    let size = same_length (recorded m) ∙ length-recorded m v in
    let (x, ex) = get_percentile-some m (sort (recorded m)) q size some_sample fits in
    let (y, ey) = get_percentile-some m (sort (recorded m)) r size some_sample fits in
    (
      x,
      y,
      ex,
      ey,
      sorted (recorded m) (clamp m q) (clamp m r) x y (clamp_mono m some_sample fits h) ex ey,
    )
