-- ===== src/Ring/Refine.antt =====
-- A valid ring behaves as the FIFO of the descriptors between `tail` and `head`.
use native.Mathlib.Nat.{mod-lt}
use porth_core.Base.{
  ℕ, suc, ◌+◌, ◌-◌, ◌%◌, ◌<◌, ◌≤◌, ◌≡◌, refl, ap, ◌⊎◌, List, [], ◌∷◌, ◌++◌, arith, true, false, u32,
  length-set, length, set, get_or, ◌==◌, Bool-cases, inl, inr,
}
use porth_core.Ring.{Ring, Descriptor, blank, push, pop, next_index, Call, pushes, pops, run}
use porth_core.Ring.Queue.{enqueue, dequeue, run_queue}
use porth_core.Ring.Span.{
  length-span, used, contents, used-next, used-full, used_same, span-set_head, span-next, span-tail,
  get_or-set_self, get_or-default,
}
use porth_core.Ring.Inv.{IsSize, IsSize-pos, IsValid, next-eq, u32-next, push-IsValid, pop-IsValid}

-- `push` returns what the FIFO bounded by SIZE - 1 returns, and leaves the ring holding its queue.
pub push_refines :
    {size : ℕ} {r : Ring} (d : Descriptor)
    → IsSize size
    → IsValid size r
    → let (ok, r') = push size r d in
      (ok, contents size r') ≡ enqueue (size - 1) (contents size r) d
unfolding push enqueue
push_refines {size} {r} d s v = ground (
  arith,
  next-eq r.head s v.head_in,
  u32-next r.head s v.head_in,
  used-full size r.head r.tail v.head_in v.tail_in,
  used-next size r.head r.tail v.head_in v.tail_in,
  mod-lt (r.head + size - r.tail) (IsSize-pos s),
  mod-lt ((r.head + 1) % size + size - r.tail) (IsSize-pos s),
  length-span size r.buffer r.tail (used size r),
  span-set_head size r.head r.tail v.head_in v.tail_in r.buffer d,
  span-next size r.head r.tail v.head_in v.tail_in (set r.buffer r.head d),
  get_or-set_self r.buffer r.head d blank,
)

-- `pop` returns what the FIFO returns, and leaves the ring holding the rest.
pub pop_refines :
    {size : ℕ} {r : Ring} (d : Descriptor)
    → IsSize size
    → IsValid size r
    → let (ok, out, r') = pop size r d in (ok, out, contents size r') ≡ dequeue (contents size r) d
unfolding pop dequeue
pop_refines {size} {r} d s v = ground (
  arith,
  next-eq r.tail s v.tail_in,
  u32-next r.tail s v.tail_in,
  used_same size r.head r.tail v.head_in v.tail_in,
  span-tail size r.head r.tail v.head_in v.tail_in r.buffer,
  get_or-default r.buffer r.tail d blank,
)

-- No sequence of calls tells a valid ring from the bounded FIFO of its contents: the replies agree, and
-- so do the descriptors left at the end.
pub run_refines :
    {size : ℕ} (cs : List Call) {r : Ring}
    → IsSize size
    → IsValid size r
    → let (replies, last) = run size r cs in
      (replies, contents size last) ≡ run_queue (size - 1) (contents size r) cs
unfolding run run_queue
run_refines [] s v = refl
run_refines {size} (pushes d ∷ cs) {r} s v =
    rw (← push_refines d s v, ← run_refines cs s (push-IsValid s v d))
run_refines {size} (pops d ∷ cs) {r} s v =
    rw (← pop_refines d s v, ← run_refines cs s (pop-IsValid s v d))

-- The two outcomes of `pop`, for clients that keep it shut.
pub pop_cases :
    {size : ℕ} {r : Ring} (d : Descriptor)
    → IsSize size
    → IsValid size r
    → ((contents size r ≡ []) × (pop size r d ≡ (false, d, r)))
      ⊎ ((x : Descriptor) × (q : Ring) × (pop size r d ≡ (true, x, q))
          × (contents size r ≡ x ∷ contents size q)
          × IsValid size q)
unfolding pop
pop_cases {size} {r} d s v = elim (Bool-cases (r.head == r.tail)) [
  | inl empty ↦ inl (ground (arith, used_same size r.head r.tail v.head_in v.tail_in), ground arith)
  | inr more ↦ inr (
    get_or r.buffer r.tail d,
    record r { tail = u32 (next_index size r.tail) },
    ground arith,
    ground (
      arith,
      u32-next r.tail s v.tail_in,
      span-tail size r.head r.tail v.head_in v.tail_in r.buffer,
      get_or-default r.buffer r.tail d blank,
    ),
    ground (arith, u32-next r.tail s v.tail_in, mod-lt (r.tail + 1) (IsSize-pos s)),
  )
]

-- The two outcomes of `push`.
pub push_cases :
    {size : ℕ} {r : Ring} (d : Descriptor)
    → IsSize size
    → IsValid size r
    → ((suc (length (contents size r)) ≡ size) × (push size r d ≡ (false, r)))
      ⊎ ((q : Ring) × (push size r d ≡ (true, q))
          × (contents size q ≡ contents size r ++ d ∷ [])
          × IsValid size q
          × (suc (length (contents size r)) < size))
unfolding push
push_cases {size} {r} d s v = elim (Bool-cases (next_index size r.head == r.tail)) [
  | inl full ↦ inl (
    ground (
      arith,
      next-eq r.head s v.head_in,
      used-full size r.head r.tail v.head_in v.tail_in,
      length-span size r.buffer r.tail (used size r),
    ),
    ground arith,
  )
  | inr room ↦ inr (
    record r { buffer = set r.buffer r.head d; head = u32 (next_index size r.head) },
    ground arith,
    ground (
      arith,
      u32-next r.head s v.head_in,
      next-eq r.head s v.head_in,
      used-next size r.head r.tail v.head_in v.tail_in,
      span-set_head size r.head r.tail v.head_in v.tail_in r.buffer d,
      span-next size r.head r.tail v.head_in v.tail_in (set r.buffer r.head d),
      get_or-set_self r.buffer r.head d blank,
    ),
    ground (
      arith,
      u32-next r.head s v.head_in,
      length-set r.buffer r.head d,
      mod-lt (r.head + 1) (IsSize-pos s),
    ),
    ground (
      arith,
      next-eq r.head s v.head_in,
      used-next size r.head r.tail v.head_in v.tail_in,
      length-span size r.buffer r.tail (used size r),
      mod-lt ((r.head + 1) % size + size - r.tail) (IsSize-pos s),
    ),
  )
]

-- A push to an empty ring, and the pop of what it put there.
pub through :
    {size : ℕ} (d out : Descriptor) (r : Ring)
    → IsSize size
    → 2 ≤ size
    → IsValid size r
    → contents size r ≡ []
    → (q q' : Ring) × (push size r d ≡ (true, q))
      × (pop size q out ≡ (true, d, q'))
      × IsValid size q'
      × (contents size q' ≡ [])
through d out r z two v nothing = elim (push_cases d z v) [
  | inl (full, e) ↦ absurd (omega (arith, full, ap length nothing))
  | inr (q, e, more, w, room) ↦ elim (pop_cases out z w) [
    | inl (none_there, f) ↦ absurd (ground (arith, more, none_there, nothing))
    | inr (x, q', f, first, w') ↦ (
      q,
      q',
      e,
      ground (arith, f, more, first, nothing),
      w',
      ground (arith, more, first, nothing),
    )
  ]
]
