-- ===== src/Ring/Span.antt =====
-- The slots of the ring from `tail` to `head`, going round: the arithmetic of the indices.
use native.Mathlib.Nat.{
  mod-eq_of_lt, mod-lt, mod-mod, add-mod-mod, mod-add-mod, div-add-mod', mod-eq-sub-mod, mod_self,
}
use porth_core.Base.{
  ℕ, zero, suc, ◌+◌, ◌-◌, ◌%◌, ◌≤◌, ◌<◌, ◌≡◌, refl, sym, ap, ap₂, ◌∙◌, ◌≢◌, ◌⊎◌, List, [], ◌∷◌,
  ◌++◌, arith, length, set, get_or, dec_lt, inl, inr, Option, none, some, replicate,
}
use porth_core.Ring.{Ring, Descriptor, blank, create}
use porth_core.Ring.Queue.{Queue}

-- Two numbers less than `m` apart have different remainders.
pub mod-ne : (m a b : ℕ) → a < b → b < a + m → a % m ≢ b % m
mod-ne m a b p q e = grind (arith, div-add-mod' a m, div-add-mod' b m)

-- Writes and reads of a list by index.
pub get_or-set_self :
    (xs : List Descriptor) (i : ℕ) (v d : Descriptor) → i < length xs → get_or (set xs i v) i d ≡ v
get_or-set_self [] i v d h = elim h [ ]
get_or-set_self (x ∷ xs) zero v d h = refl
get_or-set_self (x ∷ xs) (suc i) v d h = get_or-set_self xs i v d (omega arith)

pub get_or-set_ne :
    (xs : List Descriptor) (i j : ℕ) (v d : Descriptor)
    → i ≢ j
    → get_or (set xs i v) j d ≡ get_or xs j d
get_or-set_ne [] i j v d h = refl
get_or-set_ne (x ∷ xs) zero zero v d h = absurd (h refl)
get_or-set_ne (x ∷ xs) zero (suc j) v d h = refl
get_or-set_ne (x ∷ xs) (suc i) zero v d h = refl
get_or-set_ne (x ∷ xs) (suc i) (suc j) v d h = get_or-set_ne xs i j v d (λ e. h (ap suc e))

-- The default of a read in range does not matter.
pub get_or-default :
    (xs : List Descriptor) (i : ℕ) (d e : Descriptor)
    → i < length xs
    → get_or xs i d ≡ get_or xs i e
get_or-default [] i d e h = elim h [ ]
get_or-default (x ∷ xs) zero d e h = refl
get_or-default (x ∷ xs) (suc i) d e h = get_or-default xs i d e (omega arith)

module _ (size : ℕ) where
  -- The `n` slots from the slot of `t` on, going round.
  abbrev pub span : List Descriptor → ℕ → ℕ → Queue
  span buf t zero = []
  span buf t (suc n) = get_or buf (t % size) blank ∷ span buf (t + 1) n

  pub length-span : (buf : List Descriptor) (t n : ℕ) → length (span buf t n) ≡ n
  length-span buf t zero = refl
  length-span buf t (suc n) = ap suc (length-span buf (t + 1) n)

  -- One more slot at the end.
  pub span-snoc :
      (buf : List Descriptor) (t n : ℕ)
      → span buf t (suc n) ≡ span buf t n ++ get_or buf ((t + n) % size) blank ∷ []
  span-snoc buf t zero = ap (λ k. get_or buf (k % size) blank ∷ []) (omega arith)
  span-snoc buf t (suc n) =
      ap (λ q. get_or buf (t % size) blank ∷ q)
        (span-snoc buf (t + 1) n
          ∙ ap (λ k. span buf (t + 1) n ++ get_or buf (k % size) blank ∷ []) (omega arith))

  -- Only the remainder of the start matters.
  pub span-mod :
      (buf : List Descriptor) (a b n : ℕ) → a % size ≡ b % size → span buf a n ≡ span buf b n
  span-mod buf a b zero e = refl
  span-mod buf a b (suc n) e = ap₂ ◌∷◌ (ap (λ k. get_or buf k blank) e) (
      span-mod buf (a + 1) (b + 1) n
        (sym (mod-add-mod a size 1) ∙ ap (λ k. (k + 1) % size) e ∙ mod-add-mod b size 1))

  -- A write to the slot after the last one leaves the span alone.
  pub span-set :
      (buf : List Descriptor) (v : Descriptor) (t n c : ℕ)
      → t + n ≤ c
      → c < t + size
      → span (set buf (c % size) v) t n ≡ span buf t n
  span-set buf v t zero c p q = refl
  span-set buf v t (suc n) c p q =
      ap₂ ◌∷◌
        (get_or-set_ne buf (c % size) (t % size) v blank
          (λ e. mod-ne size t c (omega arith) q (sym e)))
        (span-set buf v (t + 1) n c (omega arith) (omega arith))

-- Below twice the divisor a remainder is one subtraction at most.
pub mod-below : (m a : ℕ) → a < m + m → ((a < m) × (a % m ≡ a)) ⊎ ((m ≤ a) × (a % m + m ≡ a))
mod-below m a h = elim (dec_lt a m) [
  | yes p ↦ inl (p, mod-eq_of_lt p)
  | no p ↦ inr (
    omega arith,
    omega (
      arith,
      mod-eq-sub-mod {n = a} {m = m} (omega arith),
      mod-eq_of_lt {n = a - m} {m = m} (omega arith),
    ),
  )
]

-- How many descriptors the ring holds.
abbrev pub used : ℕ → Ring → ℕ
used size r = (r.head + size - r.tail) % size

abbrev pub contents : ℕ → Ring → Queue
contents size r = span size r.buffer r.tail (used size r)

-- How `used` changes as the indices go round.
module _ (size h t : ℕ) (p : h < size) (q : t < size) where
  -- `head` is the slot after the last descriptor.
  pub tail-add-used : (t + (h + size - t) % size) % size ≡ h
  tail-add-used =
      rw add-mod-mod
        (omega (arith, mod-below size (t + (h + size - t)) (omega arith), mod-eq_of_lt p))

  pub used-next :
      (h + 1) % size ≢ t → ((h + 1) % size + size - t) % size ≡ suc ((h + size - t) % size)
  used-next ne = omega (
    arith,
    mod-below size (h + 1) (omega arith),
    mod-below size (h + size - t) (omega arith),
    mod-below size ((h + 1) % size + size - t)
        (omega (arith, mod-lt (h + 1) {m = size} (omega arith))),
  )

  pub used-full : (h + 1) % size ≡ t → suc ((h + size - t) % size) ≡ size
  used-full e =
      omega
        (arith, mod-below size (h + 1) (omega arith), mod-below size (h + size - t) (omega arith))

  pub used-tail : h ≢ t → (h + size - t) % size ≡ suc ((h + size - (t + 1) % size) % size)
  used-tail ne = omega (
    arith,
    mod-below size (t + 1) (omega arith),
    mod-below size (h + size - t) (omega arith),
    mod-below size (h + size - (t + 1) % size) (omega arith),
  )

  -- The slot at `head` is free: a write there leaves the contents alone.
  pub span-set_head :
      (buf : List Descriptor) (v : Descriptor)
      → span size (set buf h v) t ((h + size - t) % size) ≡ span size buf t ((h + size - t) % size)
  span-set_head buf v =
      ap (λ k. span size (set buf k v) t n) (sym tail-add-used)
      ∙ span-set size buf v t n (t + n) (omega arith)
          (omega (arith, mod-lt (h + size - t) {m = size} (omega arith)))
    where
      n : ℕ
      n = (h + size - t) % size

  -- Moving `head` on appends what its slot holds.
  pub span-next :
      (buf : List Descriptor)
      → (h + 1) % size ≢ t
      → span size buf t (((h + 1) % size + size - t) % size)
        ≡ span size buf t ((h + size - t) % size) ++ get_or buf h blank ∷ []
  span-next buf ne =
      ap (span size buf t) (used-next ne)
      ∙ span-snoc size buf t ((h + size - t) % size)
      ∙ ap (λ k. span size buf t ((h + size - t) % size) ++ get_or buf k blank ∷ []) tail-add-used

  -- The oldest descriptor stands at `tail`, and moving `tail` on drops it.
  pub span-tail :
      (buf : List Descriptor)
      → h ≢ t
      → span size buf t ((h + size - t) % size)
        ≡ get_or buf t blank ∷ span size buf ((t + 1) % size) ((h + size - (t + 1) % size) % size)
  span-tail buf ne =
      ap (span size buf t) (used-tail ne)
      ∙ ap₂ (λ k l. get_or buf k blank ∷ l) (mod-eq_of_lt q)
          (span-mod size buf (t + 1) ((t + 1) % size) _ (sym (mod-mod (t + 1) size)))

  -- Nothing stands between equal indices.
  pub used_same : h ≡ t → (h + size - t) % size ≡ 0
  used_same e = omega (arith, mod-below size (h + size - t) (omega arith))

-- A ring holds fewer descriptors than it has slots.
pub length-contents-lt : (size : ℕ) (r : Ring) → 0 < size → length (contents size r) < size
length-contents-lt size r h = omega (
  arith,
  length-span size r.buffer r.tail (used size r),
  mod-lt (r.head + size - r.tail) {m = size} (omega arith),
)

nothing_used : (size : ℕ) → (0 + size - 0) % size ≡ 0
nothing_used size =
    let all : 0 + size - 0 ≡ size = omega arith in ap (λ n. n % size) all ∙ mod_self size

-- A ring that was just built holds nothing.
pub create-contents :
    (size : ℕ) (external : Option (List Descriptor)) → contents size (create size external) ≡ []
unfolding create
create-contents size none = ap (span size (replicate size blank) 0) (nothing_used size)
create-contents size (some external) = ap (span size external 0) (nothing_used size)
