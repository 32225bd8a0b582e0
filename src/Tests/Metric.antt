-- ===== src/Tests/Metric.antt =====
-- The sample buffer of include/porth/PorthMetric.hpp at concrete inputs, with insertion sort for the library's.
use mathlib.Core.List.{Perm, Pairwise, Pairwise-singleton, forall_mem-cons}
use mathlib.Core.List.Perm
use native.Mathlib.Bridge.{le_prop}
use native.Mathlib.Nat.{le_trans}
use porth_core.Metric.Report.Order.{Sorts, report-perm, report-inside}
use porth_core.Base.{
  ℕ, zero, suc, ◌≤◌, ◌≡◌, refl, ap, ◌∙◌, arith, List, [], ◌∷◌, some, length, get_elem?, leb,
  if◌then◌else◌, Bool-cases, inl, inr, leb→le,
}
use porth_core.Base.{true, none, All, ◌≢◌, ◌+◌, ◌-◌, ◌*◌, ◌/◌, ◌^◌, map}
use porth_core.Metric.Report.{Double, calculate_stdev, print_stats, save_markdown_report}
use porth_core.Metric.Report.Squares.{sum_of_squares, calculate_stdev-squares}
use porth_core.Metric.{Metric, get_percentile, get_sorted_samples}
use porth_core.Metric.Samples.{IsValid, IsSorted}

abbrev pub insert : ℕ → List ℕ → List ℕ
insert x [] = x ∷ []
insert x (y ∷ ys) = let rest = insert x ys in if leb x y then x ∷ y ∷ ys else y ∷ rest

abbrev pub sort : List ℕ → List ℕ
sort [] = []
sort (x ∷ xs) = insert x (sort xs)

length-insert : (x : ℕ) (ys : List ℕ) → length (insert x ys) ≡ suc (length ys)
length-insert x [] = refl
length-insert x (y ∷ ys) = ground (arith, length-insert x ys)

length-sort : (xs : List ℕ) → length (sort xs) ≡ length xs
length-sort [] = refl
length-sort (x ∷ xs) = length-insert x (sort xs) ∙ ap suc (length-sort xs)

-- A lower bound of a list.
abbrev Below : ℕ → List ℕ → Type 0
Below b xs = (i x : ℕ) → get_elem? xs i ≡ some x → b ≤ x

Below-cons : (b x : ℕ) (xs : List ℕ) → b ≤ x → Below b xs → Below b (x ∷ xs)
Below-cons b x xs h below zero z e = ground (arith, e)
Below-cons b x xs h below (suc i) z e = below i z e

IsSorted-cons : (x : ℕ) (xs : List ℕ) → Below x xs → IsSorted xs → IsSorted (x ∷ xs)
IsSorted-cons x xs below s zero zero y z h e f = ground (arith, e, f)
IsSorted-cons x xs below s zero (suc j) y z h e f = ground (arith, e, below j z f)
IsSorted-cons x xs below s (suc i) zero y z h e f = absurd (omega arith)
IsSorted-cons x xs below s (suc i) (suc j) y z h e f = s i j y z (omega arith) e f

Below-insert : (b x : ℕ) (ys : List ℕ) → b ≤ x → Below b ys → Below b (insert x ys)
Below-insert b x [] h below = Below-cons b x [] h below
Below-insert b x (y ∷ ys) h below = elim (Bool-cases (leb x y)) [
  | inl e ↦ rw e (Below-cons b x (y ∷ ys) h below)
  | inr e ↦ rw e (
      Below-cons b y (insert x ys) (below 0 y refl)
        (Below-insert b x ys h (λ i z. below (suc i) z)))
]

IsSorted-insert : (x : ℕ) (ys : List ℕ) → IsSorted ys → IsSorted (insert x ys)
IsSorted-insert x [] s = IsSorted-cons x [] (λ i z e. absurd (cc)) s
IsSorted-insert x (y ∷ ys) s = elim (Bool-cases (leb x y)) [
  | inl e ↦ rw e (
      IsSorted-cons x (y ∷ ys)
        (Below-cons x y ys (ground (arith, e))
          (λ i z f. omega (arith, s 0 (suc i) y z (omega arith) refl f, leb→le x y e)))
        s)
  | inr e ↦ rw e (
      IsSorted-cons y (insert x ys)
        (Below-insert y x ys (ground (arith, e)) (λ i z f. s 0 (suc i) y z (omega arith) refl f))
        (IsSorted-insert x ys (λ i j u v h. s (suc i) (suc j) u v (omega arith))))
]

sort-IsSorted : (xs : List ℕ) → IsSorted (sort xs)
sort-IsSorted [] i j x y h e f = absurd (cc)
sort-IsSorted (x ∷ xs) i j y z h e f = IsSorted-insert x (sort xs) (sort-IsSorted xs) i j y z h e f

-- Four latencies for three slots.
abbrev latencies : List ℕ
latencies = 90 ∷ 30 ∷ 60 ∷ 10 ∷ []

abbrev empty_metric : Metric
empty_metric = record { samples = 0 ∷ 0 ∷ 0 ∷ []; capacity = 3; count = 0 }

empty_metric-IsValid : IsValid empty_metric
empty_metric-IsValid = record { storage = refl; bound = omega arith }

abbrev full_metric : Metric
full_metric = record { samples = 90 ∷ 30 ∷ 60 ∷ []; capacity = 3; count = 3 }

full_metric-IsValid : IsValid full_metric
full_metric-IsValid = record { storage = refl; bound = omega arith }

percentiles :
    (get_percentile full_metric.count (get_sorted_samples sort full_metric) 1 ≡ some 60)
    × (get_percentile full_metric.count (get_sorted_samples sort full_metric) 3 ≡ some 90)
unfolding get_percentile get_sorted_samples
percentiles = (refl, refl)

-- Whole numbers for the doubles; `to_u64` of a hundredfold.
abbrev pub whole : Double
whole = record {
  F = ℕ;
  decimal = λ m k. m;
  from_u64 = λ n. n;
  to_u64 = λ n. n;
  add = λ a b. a + b;
  sub = λ a b. a - b;
  mul = λ a b. a * b;
  div = λ a b. a / b;
  abs = λ a. a;
  sqrt = λ a. a;
}

abbrev slow : List ℕ
slow = 1 ∷ []

calculate_stdev-squares_example :
    (calculate_stdev whole 2 (3 ∷ 5 ∷ []) 4 ≡ (sum_of_squares whole 0 (3 ∷ 5 ∷ []) / 2 - 4 * 4))
    × (calculate_stdev whole 2 (map (λ k. k * 2 ^ 32) slow) 4
        ≡ calculate_stdev whole 2 (map (λ _. 0) slow) 4)
calculate_stdev-squares_example =
    calculate_stdev-squares whole 2 (3 ∷ 5 ∷ []) slow 4 (omega arith, (omega arith, tt))

insert-perm : (x : ℕ) (ys : List ℕ) → Perm (insert x ys) (x ∷ ys)
insert-perm x [] = Perm.rfl
insert-perm x (y ∷ ys) = elim (Bool-cases (leb x y)) [
  | inl e ↦ rw e Perm.rfl
  | inr e ↦ rw e (Perm.trans (Perm.cons y (insert-perm x ys)) (Perm.swap x y ys))
]

insert-ascends : (x : ℕ) (ys : List ℕ) → Pairwise ◌≤◌ ys → Pairwise ◌≤◌ (insert x ys)
insert-ascends x [] s = Pairwise-singleton ◌≤◌ x
insert-ascends x (y ∷ ys) (Pairwise.cons below s) = elim (Bool-cases (leb x y)) [
  | inl e ↦
      let h : x ≤ y = ground (arith, e) in
      rw e (
        Pairwise.cons ((forall_mem-cons (λ _. le_prop)).1 (h, λ z m. le_trans h (below z m)))
          (Pairwise.cons below s))
  | inr e ↦
      let h : y ≤ x = ground (arith, e) in
      rw e (
        Pairwise.cons
          (λ z m.
            (forall_mem-cons (λ _. le_prop)).1 (h, below) z ((Perm.mem_iff (insert-perm x ys)).0 m))
          (insert-ascends x ys s))
]

pub sort-Sorts : Sorts sort
sort-Sorts = record { ascends = ascends; permutes = permutes }
  where
    ascends : (xs : List ℕ) → Pairwise ◌≤◌ (sort xs)
    ascends [] = Pairwise.nil
    ascends (x ∷ xs) = insert-ascends x (sort xs) (ascends xs)

    permutes : (xs : List ℕ) → Perm (sort xs) xs
    permutes [] = Perm.rfl
    permutes (x ∷ xs) = Perm.trans (insert-perm x (sort xs)) (Perm.cons x (permutes xs))

-- The same samples in another order.
abbrev turned : Metric
turned = record { samples = 30 ∷ 90 ∷ 60 ∷ []; capacity = 3; count = 3 }

report-perm_example :
    (print_stats whole sort full_metric 2 ≡ print_stats whole sort turned 2)
    × (save_markdown_report whole sort true full_metric 2
        ≡ save_markdown_report whole sort true turned 2)
report-perm_example =
    report-perm whole sort true 2 full_metric turned sort-Sorts full_metric-IsValid
      (record { storage = refl; bound = omega arith }) (Perm.swap 30 90 (60 ∷ []))

report-inside_example :
    All (λ figure. figure ≢ none) (print_stats whole sort turned 2)
    × All (λ figure. figure ≢ none) (save_markdown_report whole sort true turned 2)
report-inside_example =
    report-inside whole sort true 2 turned sort-Sorts
      (record { storage = refl; bound = omega arith }) (omega arith) (omega arith)
