-- ===== src/Base/Bits.antt =====
-- Machine words: wrap-around, and the masks and single-bit flips that the code uses.
use Prim.Native.Nat.{
  ℕ, zero, suc, ◌+◌, ◌-◌, ◌*◌, ◌/◌, ◌%◌, ◌^◌, ◌≤◌, ◌<◌, min, bit_and, bit_xor, digits, differ,
  bit_and-bitwise, bit_xor-bitwise,
}
use mathlib.Core.Path.{◌≡◌, refl, ap, ◌∙◌}
use mathlib.Core.Logic.{◌≢◌}
use native.Mathlib.Nat.{
  pow-suc, one-le-pow, add-mul-mod_self_right, mod-eq_of_lt, mod-lt, div-add-mod',
}
use native.Mathlib.Omega.{arith}

-- uint32_t and uint64_t (also size_t and unsigned long) keep a number modulo 2^32 and 2^64.
abbrev pub u32 : ℕ → ℕ
u32 n = n % 2 ^ 32

abbrev pub u64 : ℕ → ℕ
u64 n = n % 2 ^ 64

-- The native operations are recursions over `n` digits at most: more digits than the number has change
-- nothing.
module _ (z : ℕ → ℕ) (f : ℕ → ℕ → ℕ) where
  digits_enough : (n m a b : ℕ) → a ≤ n → a ≤ m → digits z f n a b ≡ digits z f m a b
  digits_enough zero zero a b p q = refl
  digits_enough zero (suc m) zero b p q = refl
  digits_enough (suc n) zero zero b p q = refl
  digits_enough (suc n) (suc m) zero b p q = refl
  digits_enough zero (suc m) (suc a) b p q = absurd (omega arith)
  digits_enough (suc n) zero (suc a) b p q = absurd (omega arith)
  digits_enough (suc n) (suc m) (suc a) b p q =
      ap (λ t. t * 2 + f (suc a % 2) (b % 2))
        (digits_enough n m (suc a / 2) (b / 2) (omega arith) (omega arith))

-- The lowest digit of a conjunction, and the rest.
bit_and-halves : (a b : ℕ) → bit_and a b ≡ 2 * bit_and (a / 2) (b / 2) + min (a % 2) (b % 2)
bit_and-halves zero b = omega (arith, bit_and-bitwise 0 b, bit_and-bitwise 0 (b / 2))
bit_and-halves (suc a) b = omega (
  arith,
  bit_and-bitwise (suc a) b,
  bit_and-bitwise (suc a / 2) (b / 2),
  digits_enough (λ b. zero) min a (suc a / 2) (suc a / 2) (b / 2) (omega arith) (omega arith),
)

-- The same of an exclusive or.
bit_xor-halves : (a b : ℕ) → bit_xor a b ≡ 2 * bit_xor (a / 2) (b / 2) + differ (a % 2) (b % 2)
bit_xor-halves zero b = omega (arith, bit_xor-bitwise 0 b, bit_xor-bitwise 0 (b / 2))
bit_xor-halves (suc a) b = omega (
  arith,
  bit_xor-bitwise (suc a) b,
  bit_xor-bitwise (suc a / 2) (b / 2),
  digits_enough (λ b. b) differ a (suc a / 2) (suc a / 2) (b / 2) (omega arith) (omega arith),
)

-- Flipping one bit gives another number.
differ-one-ne : (r : ℕ) → r < 2 → differ r 1 ≢ r
differ-one-ne zero h e = omega arith
differ-one-ne (suc zero) h e = omega arith
differ-one-ne (suc (suc r)) h e = omega arith

differ-zero : (r : ℕ) → differ r 0 ≡ r
differ-zero zero = refl
differ-zero (suc r) = refl

differ-lt : (r : ℕ) → r < 2 → differ r 1 < 2
differ-lt zero h = omega arith
differ-lt (suc zero) h = omega arith
differ-lt (suc (suc r)) h = omega arith

pub flip-ne : (b a : ℕ) → bit_xor a (2 ^ b) ≢ a
flip-ne zero a e = omega (
  arith,
  bit_xor-halves a 1,
  differ-one-ne (a % 2) (omega arith),
  differ-lt (a % 2) (omega arith),
)
flip-ne (suc b) a e = ground (
  arith,
  bit_xor-halves a (2 ^ suc b),
  flip-ne b (a / 2),
  differ-zero (a % 2),
  pow-suc 2 b,
  halve_pow b,
)
  where
    halve_pow : (b : ℕ) → (2 ^ suc b / 2 ≡ 2 ^ b) × (2 ^ suc b % 2 ≡ 0)
    halve_pow b = omega (arith, pow-suc 2 b)

-- A bit set in nothing.
pub flip-zero : (b : ℕ) → bit_xor 0 (2 ^ b) ≡ 2 ^ b
flip-zero b = bit_xor-bitwise 0 (2 ^ b)

-- Recursion on a bound of `a`.
bit_and-none : (n a : ℕ) → a ≤ n → bit_and a 0 ≡ 0
bit_and-none n zero h = refl
bit_and-none zero (suc a) h = absurd (omega arith)
bit_and-none (suc n) (suc a) h =
    omega (arith, bit_and-halves (suc a) 0, bit_and-none n (suc a / 2) (omega arith))

mod-two-pow-suc : (k a : ℕ) → a % 2 ^ suc k ≡ 2 * (a / 2 % 2 ^ k) + a % 2
mod-two-pow-suc k a =
    ap (λ t. t % 2 ^ suc k) split
    ∙ add-mul-mod_self_right _ (a / 2 / 2 ^ k) (2 ^ suc k)
    ∙ mod-eq_of_lt (omega (arith, pow-suc 2 k, mod-lt (a / 2) (one-le-pow k 2 (omega arith))))
  where
    split : a ≡ 2 * (a / 2 % 2 ^ k) + a % 2 + a / 2 / 2 ^ k * 2 ^ suc k
    split =
        omega (arith, div-add-mod' (a / 2) (2 ^ k), ap (λ (t : ℕ). a / 2 / 2 ^ k * t) (pow-suc 2 k))

half_mask : (k : ℕ) → (2 ^ suc k - 1) / 2 ≡ 2 ^ k - 1
half_mask k = omega (arith, pow-suc 2 k, one-le-pow k 2 (omega arith))

-- A mask of `k` low bits keeps the remainder by `2 ^ k`.
pub bit_and-mask : (k a : ℕ) → bit_and a (2 ^ k - 1) ≡ a % 2 ^ k
bit_and-mask zero a = omega (arith, bit_and-none a a (omega arith))
bit_and-mask (suc k) a = ground (
  arith,
  bit_and-halves a (2 ^ suc k - 1),
  half_mask k,
  bit_and-mask k (a / 2),
  pow-suc 2 k,
  one-le-pow k 2 (omega arith),
  mod-two-pow-suc k a,
)
