-- ===== src/Metric/Report/Squares.antt =====
-- The sum of squares of the deviation: where it is the exact one, and where the squares wrap.
use native.Mathlib.Nat.{mul-le-mul, mod-eq_of_lt, add-mul-mod_self_right}
use porth_core.Base.{
  ◌-◌, ◌%◌, ◌≤◌, ℕ, ◌+◌, ◌*◌, ◌^◌, ◌<◌, ◌≡◌, refl, ap, ◌∙◌, arith, List, [], ◌∷◌, All, map, u64,
}
use porth_core.Metric.Report.{Double, inner_product, calculate_stdev}

-- The sum with squares that are not cut to 64 bits.
pub sum_of_squares : (dbl : Double) → dbl.F → List ℕ → dbl.F
sum_of_squares dbl acc [] = acc
sum_of_squares dbl acc (x ∷ xs) = sum_of_squares dbl (dbl.add acc (dbl.from_u64 (x * x))) xs

square-small : (x : ℕ) → x < 2 ^ 32 → u64 (x * x) ≡ x * x
square-small x h =
    let bound : x * x ≤ (2 ^ 32 - 1) * (2 ^ 32 - 1) =
      mul-le-mul {n₂ = 2 ^ 32 - 1} {m₂ = 2 ^ 32 - 1} (omega arith) (omega arith) in
    mod-eq_of_lt (omega (arith, bound))

square-multiple : (k : ℕ) → u64 (k * 2 ^ 32 * (k * 2 ^ 32)) ≡ 0
square-multiple k =
    let whole : k * 2 ^ 32 * (k * 2 ^ 32) ≡ 0 + k * k * 2 ^ 64 = omega arith in
    ap (λ (t : ℕ). t % 2 ^ 64) whole ∙ add-mul-mod_self_right 0 (k * k) (2 ^ 64)

inner_product-exact :
    (dbl : Double) (acc : dbl.F) (xs : List ℕ)
    → All (λ x. x < 2 ^ 32) xs
    → inner_product dbl acc xs ≡ sum_of_squares dbl acc xs
unfolding inner_product sum_of_squares
inner_product-exact dbl acc [] h = refl
inner_product-exact dbl acc (x ∷ xs) (h, hs) =
    ap (λ t. inner_product dbl (dbl.add acc (dbl.from_u64 t)) xs) (square-small x h)
    ∙ inner_product-exact dbl (dbl.add acc (dbl.from_u64 (x * x))) xs hs

inner_product-vanishes :
    (dbl : Double) (acc : dbl.F) (ks : List ℕ)
    → inner_product dbl acc (map (λ k. k * 2 ^ 32) ks) ≡ inner_product dbl acc (map (λ _. 0) ks)
unfolding inner_product
inner_product-vanishes dbl acc [] = refl
inner_product-vanishes dbl acc (k ∷ ks) =
    ap (λ t. inner_product dbl (dbl.add acc (dbl.from_u64 t)) (map (λ j. j * 2 ^ 32) ks))
      (square-multiple k)
    ∙ inner_product-vanishes dbl (dbl.add acc (dbl.from_u64 0)) ks

-- The deviation of samples below 2^32 cycles is that of the exact sum of their squares; but as many samples that are
-- multiples of 2^32 cycles have, about the same mean, the deviation of samples of 0.
pub calculate_stdev-squares :
    (dbl : Double) (count : ℕ) (xs ks : List ℕ) (mean : dbl.F)
    → All (λ x. x < 2 ^ 32) xs
    → (calculate_stdev dbl count xs mean
        ≡ dbl.sqrt (
            dbl.abs (
              dbl.sub
                (dbl.div (sum_of_squares dbl (dbl.decimal 0 0) xs) (dbl.from_u64 count))
                (dbl.mul mean mean))))
      × (calculate_stdev dbl count (map (λ k. k * 2 ^ 32) ks) mean
          ≡ calculate_stdev dbl count (map (λ _. 0) ks) mean)
unfolding calculate_stdev
calculate_stdev-squares dbl count xs ks mean small = (
  ap (λ t. dbl.sqrt (dbl.abs (dbl.sub (dbl.div t (dbl.from_u64 count)) (dbl.mul mean mean))))
      (inner_product-exact dbl _ xs small),
  ap (λ t. dbl.sqrt (dbl.abs (dbl.sub (dbl.div t (dbl.from_u64 count)) (dbl.mul mean mean))))
      (inner_product-vanishes dbl _ ks),
)
