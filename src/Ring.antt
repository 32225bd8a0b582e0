-- ===== src/Ring.antt =====
-- include/porth/PorthRingBuffer.hpp: the single-producer single-consumer descriptor ring.
-- `size` is the template parameter SIZE. Here `push` and `pop` run one at a time; Ring/Spsc has the
-- two threads with one shared access at a time.
pub mod Queue
pub mod Inv
pub mod Span
pub mod Refine
pub mod Spsc
use porth_core.Base.{
  ℕ, ◌+◌, ◌-◌, ◌^◌, u32, u64, bit_and, Bool, true, false, List, [], ◌∷◌, Option, none, some, ◌==◌,
  if◌then◌else◌, set, get_or, replicate, not,
}

pub record Descriptor : Type 0 where
  pub addr : ℕ  -- uint64_t
  pub len : ℕ  -- uint32_t

-- `PorthDescriptor desc{}`
abbrev pub blank : Descriptor
blank = record { addr = 0; len = 0 }

pub record Ring : Type 0 where
  pub buffer : List Descriptor
  pub owns_buffer : Bool
  pub head : ℕ  -- std::atomic<uint32_t>
  pub tail : ℕ  -- std::atomic<uint32_t>

-- `(i + 1) & (SIZE - 1)`: the sum is a uint32_t, the mask a size_t.
unfoldable pub next_index : ℕ → ℕ → ℕ
next_index size i = bit_and (u32 (i + 1)) (u64 (size + 2 ^ 64 - 1))

-- The constructor: a null `external_buffer` makes the ring allocate, and own, SIZE descriptors. What
-- `new` leaves in them is not read before it is written; it stands here as blank descriptors.
unfoldable pub create : ℕ → Option (List Descriptor) → Ring
create size (some external) = record { buffer = external; owns_buffer = false; head = 0; tail = 0 }
create size none = record { buffer = replicate size blank; owns_buffer = true; head = 0; tail = 0 }

-- What the destructor deletes.
unfoldable pub destroy : Ring → Option (List Descriptor)
destroy r = if r.owns_buffer then some r.buffer else none

-- `m_buffer[h] = desc` is `set`, which changes nothing out of range.
unfoldable pub push : ℕ → Ring → Descriptor → Bool × Ring
push size r desc =
    let h = r.head in
    let t = r.tail in
    if next_index size h == t
    then (false, r)
    else (true, record r { buffer = set r.buffer h desc; head = u32 (next_index size h) })

-- The second component is what `out_desc` holds afterwards.
unfoldable pub pop : ℕ → Ring → Descriptor → Bool × Descriptor × Ring
pop size r out_desc =
    let t = r.tail in
    let h = r.head in
    if h == t
    then (false, out_desc, r)
    else (true, get_or r.buffer t out_desc, record r { tail = u32 (next_index size t) })

-- A client's calls in order, and what it sees of each.
pub data Call : Type 0 where
  pushes : Descriptor → Call
  pops : Descriptor → Call

pub data Reply : Type 0 where
  pushed : Bool → Reply
  popped : Bool → Descriptor → Reply

unfoldable pub run : ℕ → Ring → List Call → List Reply × Ring
run size r [] = ([], r)
run size r (pushes d ∷ cs) =
    let (ok, r') = push size r d in
    let (replies, last) = run size r' cs in (pushed ok ∷ replies, last)
run size r (pops d ∷ cs) =
    let (ok, out, r') = pop size r d in
    let (replies, last) = run size r' cs in (popped ok out ∷ replies, last)
