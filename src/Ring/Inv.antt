-- ===== src/Ring/Inv.antt =====
-- The representation invariant of the ring, for a SIZE that is a power of two up to 2^32.
use native.Mathlib.Nat.{mod-eq_of_lt, mod-lt, one-le-pow, mod_self}
use porth_core.Base.{
  ℕ, ◌+◌, ◌-◌, ◌%◌, ◌^◌, ◌≤◌, ◌<◌, ◌≡◌, ap, none, arith, dec_lt, u32, u64, bit_and-mask, length,
  length-set, length-replicate,
}
use porth_core.Ring.{Ring, Descriptor, next_index, create, push, pop}

-- SIZE is 2^k. The index is a uint32_t, hence the bound.
pub record IsSize (size : ℕ) : Type 0 where
  pub k : ℕ
  pub power : size ≡ 2 ^ k
  pub small : size ≤ 2 ^ 32

pub IsSize-pos : {size : ℕ} → IsSize size → 0 < size
IsSize-pos s = omega (arith, one-le-pow s.k 2 (omega arith))

-- The bitwise AND is the remainder, for every valid index.
pub next-eq : {size : ℕ} (i : ℕ) → IsSize size → i < size → next_index size i ≡ (i + 1) % size
unfolding next_index
next-eq {size} i s h = rw (mask, s.power, bit_and-mask s.k, ← s.power) wrap
  where
    mask : u64 (size + 2 ^ 64 - 1) ≡ size - 1
    mask = omega (arith, s.small, IsSize-pos s)

    wrap : u32 (i + 1) % size ≡ (i + 1) % size
    wrap = elim (dec_lt (i + 1) (2 ^ 32)) [
      | yes p ↦ ap (λ (t : ℕ). t % size) (omega arith)
      | no p ↦ let e : size ≡ i + 1 = omega (arith, s.small) in rw (e, mod_self) (omega arith)
    ]

pub u32-next :
    {size : ℕ} (i : ℕ) → IsSize size → i < size → u32 (next_index size i) ≡ (i + 1) % size
u32-next {size} i s h =
    rw (next-eq i s h) (mod-eq_of_lt (omega (arith, mod-lt (i + 1) (IsSize-pos s), s.small)))

pub record IsValid (size : ℕ) (r : Ring) : Type 0 where
  pub storage : length r.buffer ≡ size
  pub head_in : r.head < size
  pub tail_in : r.tail < size

-- `create` over no external memory, or over SIZE descriptors of it, is valid and empty.
pub create-IsValid : {size : ℕ} → IsSize size → IsValid size (create size none)
unfolding create
create-IsValid {size} s = record {
  storage = length-replicate size _;
  head_in = IsSize-pos s;
  tail_in = IsSize-pos s;
}

pub push-IsValid :
    {size : ℕ} {r : Ring}
    → IsSize size
    → IsValid size r
    → (d : Descriptor) → IsValid size (push size r d).1
unfolding push
push-IsValid {size} {r} s v d = ground (
  arith,
  u32-next r.head s v.head_in,
  length-set r.buffer r.head d,
  mod-lt (r.head + 1) (IsSize-pos s),
)

pub pop-IsValid :
    {size : ℕ} {r : Ring}
    → IsSize size
    → IsValid size r
    → (d : Descriptor) → IsValid size (pop size r d).2
unfolding pop
pop-IsValid {size} {r} s v d =
    ground (arith, u32-next r.tail s v.tail_in, mod-lt (r.tail + 1) (IsSize-pos s))
