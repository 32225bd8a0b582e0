-- ===== src/Metric/Report/Order.antt =====
-- The figures of a report do not depend on the order in which the samples came, and no figure is read out of bounds.
use mathlib.Core.Path.{subst}
use mathlib.Core.List.{Mem, Perm, Pairwise, mem-cons_self, forall_mem-cons}
use mathlib.Core.List
use mathlib.Core.List.Perm
use mathlib.Core.List.Pairwise
use native.Mathlib.Bridge.{le_prop, from_ℕ}
use native.Mathlib.Nat.{le_antisymm, le_refl}
use porth_core.Base.{
  ℕ, ◌^◌, ◌≤◌, ◌<◌, ◌≡◌, ◌≢◌, refl, sym, ap, ap₂, ◌∙◌, arith, List, [], ◌∷◌, some, none, Option,
  length, suc, Bool, All, Bool-cases, inl, inr, ◌==◌,
}
use porth_core.Metric.{Metric, recorded, get_sorted_samples}
use porth_core.Metric.Samples.{IsValid, length-recorded, get_percentile-some}
use porth_core.Metric.Report.{Double, minus, get_percentile_ns, print_stats, save_markdown_report}

-- What is documented of std::ranges::sort on a range of uint64_t: the result is an ascending permutation.
pub record Sorts (sort : List ℕ → List ℕ) : Type 0 where
  pub ascends : (xs : List ℕ) → Pairwise ◌≤◌ (sort xs)
  pub permutes : (xs : List ℕ) → Perm (sort xs) xs

-- The first of an ascending list is a lower bound of its permutations.
first-le : {a b : ℕ} {xs ys : List ℕ} → Pairwise ◌≤◌ (a ∷ xs) → Perm (b ∷ ys) (a ∷ xs) → a ≤ b
first-le {a} {b} (Pairwise.cons below s) p =
    (forall_mem-cons (λ x. le_prop)).1 (le_refl a, below) b ((Perm.mem_iff p).0 mem-cons_self)

-- Two ascending permutations of each other are the same list.
ascending_unique : (xs ys : List ℕ) → Pairwise ◌≤◌ xs → Pairwise ◌≤◌ ys → Perm xs ys → xs ≡ ys
ascending_unique [] ys s t p = Perm.nil-eq p
ascending_unique (a ∷ xs) [] s t p = Perm.eq-nil p
ascending_unique (a ∷ xs) (b ∷ ys) s t p =
    let same = le_antisymm (first-le s (Perm.symm p)) (first-le t p) in
    let rest = Perm.cons_inv (subst (λ x. Perm (x ∷ xs) (b ∷ ys)) same p) in
    ap₂ ◌∷◌ same (ascending_unique xs ys (Pairwise.of_cons s) (Pairwise.of_cons t) rest)

-- The sorted samples depend on the samples alone.
sort-perm : (sort : List ℕ → List ℕ) (xs ys : List ℕ) → Sorts sort → Perm xs ys → sort xs ≡ sort ys
sort-perm sort xs ys s p =
    ascending_unique (sort xs) (sort ys) (s.ascends xs) (s.ascends ys)
      (Perm.trans (s.permutes xs) (Perm.trans p (Perm.symm (s.permutes ys))))

-- The library's length and that of the native numbers.
length-from : (xs : List ℕ) → from_ℕ (List.length xs) ≡ length xs
length-from [] = refl
length-from (x ∷ xs) = ap suc (length-from xs)

pub length-perm : {xs ys : List ℕ} → Perm xs ys → length xs ≡ length ys
length-perm {xs} {ys} p = sym (length-from xs) ∙ ap from_ℕ (Perm.length-eq p) ∙ length-from ys

count-perm :
    (m n : Metric) → IsValid m → IsValid n → Perm (recorded m) (recorded n) → m.count ≡ n.count
count-perm m n v w p = sym (length-recorded m v) ∙ length-perm p ∙ length-recorded n w

-- Two metrics, each valid, with the same samples in any two orders give the same figures, in print and in the file:
-- whatever the doubles do, and for every sort that returns an ascending permutation.
pub report-perm :
    (dbl : Double) (sort : List ℕ → List ℕ) (opens : Bool) (cycles_per_ns : dbl.F) (m n : Metric)
    → Sorts sort
    → IsValid m
    → IsValid n
    → Perm (recorded m) (recorded n)
    → (print_stats dbl sort m cycles_per_ns ≡ print_stats dbl sort n cycles_per_ns)
      × (save_markdown_report dbl sort opens m cycles_per_ns
          ≡ save_markdown_report dbl sort opens n cycles_per_ns)
unfolding print_stats save_markdown_report get_sorted_samples
report-perm dbl sort opens cycles_per_ns m n s v w p =
    let same = sort-perm sort _ _ s p in
    let counts = count-perm m n v w p in
    (rw (same, counts, print_stats) refl, rw (same, counts, save_markdown_report) refl)

-- A sorted copy is as long as the samples.
length-sorted :
    (sort : List ℕ → List ℕ) (m : Metric)
    → Sorts sort
    → IsValid m
    → length (get_sorted_samples sort m) ≡ m.count
unfolding get_sorted_samples
length-sorted sort m s v = length-perm (s.permutes (recorded m)) ∙ length-recorded m v

some_ne : {A : Type 0} {a : A} → ◌≢◌ {A = Option A} (some a) none
some_ne e = absurd (cc)

minus-some : (dbl : Double) {a b : Option dbl.F} → a ≢ none → b ≢ none → minus dbl a b ≢ none
minus-some dbl {a = none} p q = absurd (p refl)
minus-some dbl {a = some x} {b = none} p q = absurd (q refl)
minus-some dbl {a = some x} {b = some y} p q = some_ne

get_percentile_ns-some :
    (dbl : Double) (sort : List ℕ → List ℕ) (cycles_per_ns : dbl.F) (m : Metric)
    → Sorts sort
    → IsValid m
    → 0 < m.count
    → m.count < 2 ^ 64
    → (p : dbl.F) → get_percentile_ns dbl m.count (get_sorted_samples sort m) p cycles_per_ns ≢ none
unfolding get_percentile_ns
get_percentile_ns-some dbl sort cycles_per_ns m s v some_sample fits p =
    let quotient = dbl.to_u64 (dbl.div (dbl.mul p (dbl.from_u64 m.count)) (dbl.decimal 100 0)) in
    let (x, e) = get_percentile-some m _ quotient (length-sorted sort m s v) some_sample fits in
    rw (e, get_percentile_ns) some_ne

-- Every figure of a valid metric with a sample is read in bounds, in print and in the file, whatever the doubles do,
-- also where a quotient is no number: none is missing.
pub report-inside :
    (dbl : Double) (sort : List ℕ → List ℕ) (opens : Bool) (cycles_per_ns : dbl.F) (m : Metric)
    → Sorts sort
    → IsValid m
    → 0 < m.count
    → m.count < 2 ^ 64
    → All (λ figure. figure ≢ none) (print_stats dbl sort m cycles_per_ns)
      × All (λ figure. figure ≢ none) (save_markdown_report dbl sort opens m cycles_per_ns)
unfolding print_stats save_markdown_report
report-inside dbl sort opens cycles_per_ns m s v some_sample fits = (
  elim (Bool-cases (m.count == 0)) [
    | inl nothing ↦ absurd (ground arith)
    | inr some_ ↦ rw some_ (
      some_ne,
      (some_ne, (minus-some dbl (inside _) (inside _), (inside (dbl.decimal 9999 2), tt))),
    )
  ],
  elim (Bool-cases opens) [
    | inl open_ ↦ elim (Bool-cases (m.count == 0)) [
      | inl nothing ↦ absurd (ground arith)
      | inr some_ ↦
          rw (open_, some_) (inside _, (inside _, (inside _, (inside (dbl.decimal 100 0), tt))))
    ]
    | inr shut ↦ rw shut tt
  ],
)
  where
    inside :
        (p : dbl.F)
        → get_percentile_ns dbl m.count (get_sorted_samples sort m) p cycles_per_ns ≢ none
    inside = get_percentile_ns-some dbl sort cycles_per_ns m s v some_sample fits
