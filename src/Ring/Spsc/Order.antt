-- ===== src/Ring/Spsc/Order.antt =====
-- No interleaving of the producer and the consumer loses, repeats, reorders or tears a descriptor.
use native.Mathlib.Nat.{mod-lt}
use porth_core.Base.{
  ℕ, suc, ◌+◌, ◌-◌, ◌%◌, ◌<◌, ◌≡◌, ◌≢◌, refl, [], ◌∷◌, ◌++◌, append_assoc, arith, length,
  length-set, get_or, none,
}
use porth_core.Ring.{Ring, Descriptor, blank, next_index, create}
use porth_core.Ring.Inv.{IsSize, IsSize-pos, IsValid, next-eq, u32-next, create-IsValid}
use porth_core.Ring.Span.{
  mod-below, span, length-span, used, used-full, contents, used_same, span-set_head, span-next,
  span-tail, get_or-set_self, get_or-set_ne,
}
use porth_core.Ring.Spsc.{
  Producer, got_head, has_room, wrote, Consumer, got_tail, has_item, took, System, Step, load_head,
  refuse, check_room, write_slot, store_head, load_tail, give_up, check_item, read_slot, store_tail,
  Reach, start, later, quiet,
}

-- What the producer's locals say: its copy of the head is current, and once it has checked there is
-- room, and once it has written the slot holds its descriptor.
abbrev Producing : ℕ → Ring → Producer → Type 0
Producing size r Producer.outside = Unit
Producing size r (got_head d h) = h ≡ r.head
Producing size r (has_room d h) = (h ≡ r.head) × ((h + 1) % size ≢ r.tail)
Producing size r (wrote d h) =
    (h ≡ r.head) × ((h + 1) % size ≢ r.tail) × (get_or r.buffer h blank ≡ d)

abbrev Consuming : Ring → Consumer → Type 0
Consuming r Consumer.outside = Unit
Consuming r (got_tail t) = t ≡ r.tail
Consuming r (has_item t) = (t ≡ r.tail) × (r.head ≢ t)
Consuming r (took t d) = (t ≡ r.tail) × (r.head ≢ t) × (get_or r.buffer t blank ≡ d)

pub record Inv (size : ℕ) (s : System) : Type 0 where
  pub valid : IsValid size s.ring
  pub producing : Producing size s.ring s.producer
  pub consuming : Consuming s.ring s.consumer
  pub in_order : s.sent ≡ s.received ++ contents size s.ring

-- The step from one index to the next is injective.
next_apart : (size a b : ℕ) → a < size → b < size → a ≢ b → (a + 1) % size ≢ (b + 1) % size
next_apart size a b p q ne =
    omega (arith, mod-below size (a + 1) (omega arith), mod-below size (b + 1) (omega arith))

-- Every access of either thread keeps the invariant.
pub Step-Inv : {size : ℕ} {s t : System} → IsSize size → Step size s t → Inv size s → Inv size t
Step-Inv z (load_head s d e) v = ground arith
Step-Inv z (refuse s d h e f) v = ground arith
Step-Inv z (check_room s d h e f) v = ground (arith, next-eq h z)
Step-Inv z (write_slot s d h e) v = ground (
  arith,
  length-set s.ring.buffer h d,
  get_or-set_self s.ring.buffer h d blank,
  get_or-set_ne s.ring.buffer h s.ring.tail d blank,
  span-set_head _ s.ring.head s.ring.tail v.valid.head_in v.valid.tail_in s.ring.buffer d,
)
Step-Inv {size} z (store_head s d h e) v = ground (
  arith,
  u32-next h z,
  mod-lt (h + 1) (IsSize-pos z),
  span-next _ s.ring.head s.ring.tail v.valid.head_in v.valid.tail_in s.ring.buffer,
  append_assoc s.received (contents size s.ring) (d ∷ []),
)
Step-Inv z (load_tail s e) v = ground arith
Step-Inv z (give_up s t e f) v = ground arith
Step-Inv z (check_item s t e f) v = ground arith
Step-Inv z (read_slot s t e) v = ground arith
Step-Inv {size} z (store_tail s t d e) v = ground (
  arith,
  u32-next t z,
  mod-lt (t + 1) (IsSize-pos z),
  next_apart size s.ring.head t,
  span-tail size s.ring.head s.ring.tail v.valid.head_in v.valid.tail_in s.ring.buffer,
  append_assoc s.received (d ∷ [])
      (span size s.ring.buffer ((t + 1) % size) ((s.ring.head + size - (t + 1) % size) % size)),
)

quiet-Inv : {size : ℕ} {r : Ring} → IsValid size r → r.head ≡ r.tail → Inv size (quiet r)
unfolding quiet
quiet-Inv {size} {r} v e = ground (arith, used_same size r.head r.tail v.head_in v.tail_in)

pub Reach-Inv :
    {size : ℕ} {fresh s : System} → IsSize size → Inv size fresh → Reach size fresh s → Inv size s
Reach-Inv z v start = v
Reach-Inv z v (later r st) = Step-Inv z st (Reach-Inv z v r)

pub create-Inv : {size : ℕ} → IsSize size → Inv size (quiet (create size none))
unfolding create
create-Inv z = quiet-Inv (create-IsValid z) refl

-- For a SIZE that is a power of two up to 2^32, in every state that the producer and the consumer can
-- come to from a new ring, what was sent is what was received followed by what the ring holds, in
-- order; and the ring holds at most SIZE - 1 descriptors.
pub fifo :
    {size : ℕ} {s : System}
    → IsSize size
    → Reach size (quiet (create size none)) s
    → (s.sent ≡ s.received ++ contents size s.ring) × (length (contents size s.ring) < size)
fifo {size} {s} z r =
    let v = Reach-Inv z (create-Inv z) r in
    (
      v.in_order,
      omega (
        arith,
        length-span size s.ring.buffer s.ring.tail (used size s.ring),
        mod-lt (s.ring.head + size - s.ring.tail) (IsSize-pos z),
      ),
    )

-- The producer never writes the slot that the consumer is about to read, and both slots lie in the
-- buffer: in no reachable state do the two threads stand before accesses of one slot.
pub no_race :
    {size : ℕ} {s : System} (d : Descriptor) (h t : ℕ)
    → IsSize size
    → Reach size (quiet (create size none)) s
    → s.producer ≡ has_room d h
    → s.consumer ≡ has_item t
    → (h ≢ t) × (h < length s.ring.buffer) × (t < length s.ring.buffer)
no_race {size} {s} d h t z r p c = ground (arith, Reach-Inv z (create-Inv z) r)

-- A `push` that is refused, because the slot after the head that it loaded is the tail it sees, is
-- refused at a moment when the ring holds SIZE - 1 descriptors.
pub refused_full :
    {size : ℕ} {s : System} (d : Descriptor) (h : ℕ)
    → IsSize size
    → Reach size (quiet (create size none)) s
    → s.producer ≡ got_head d h
    → next_index size h ≡ s.ring.tail
    → suc (length (contents size s.ring)) ≡ size
refused_full {size} {s} d h z r p e = ground (
  arith,
  Reach-Inv z (create-Inv z) r,
  next-eq h z,
  length-span size s.ring.buffer s.ring.tail (used size s.ring),
  used-full size s.ring.head s.ring.tail (Reach-Inv z (create-Inv z) r).valid.head_in
      (Reach-Inv z (create-Inv z) r).valid.tail_in,
)

-- A `pop` that returns false, because the head it sees is the tail that it loaded, returns at a moment
-- when the ring holds no descriptor.
pub refused_empty :
    {size : ℕ} {s : System} (t : ℕ)
    → IsSize size
    → Reach size (quiet (create size none)) s
    → s.consumer ≡ got_tail t
    → s.ring.head ≡ t
    → contents size s.ring ≡ []
refused_empty {size} {s} t z r c e =
    let v = Reach-Inv z (create-Inv z) r in
    ground (arith, v, used_same size s.ring.head s.ring.tail v.valid.head_in v.valid.tail_in)
