-- ===== src/Ring/Spsc/Linear.antt =====
-- Each call of the two threads as one atomic action on the bounded queue, at one of its own accesses.
use porth_core.Base.{
  ℕ, ◌-◌, ◌≡◌, refl, ap, true, false, List, [], ◌∷◌, ◌++◌, none, arith, length, length-append, u32,
}
use porth_core.Ring.{Descriptor, blank, next_index, create}
use porth_core.Ring.Inv.{IsSize, IsSize-pos, next-eq, u32-next}
use porth_core.Ring.Span.{
  contents, create-contents, length-contents-lt, length-span, used, used-full, used_same,
  span-set_head, span-next, span-tail,
}
use porth_core.Ring.Queue.{Queue, enqueue, dequeue}
use porth_core.Ring.Spsc.{
  System, Step, load_head, refuse, check_room, write_slot, store_head, load_tail, give_up,
  check_item, read_slot, store_tail, Reach, start, later, quiet,
}
use porth_core.Ring.Spsc.Order.{Inv, Step-Inv, Reach-Inv, create-Inv}

-- What a step does for a client: nothing, or a call of `push` or `pop` with its answer.
pub data Action : Type 0 where
  silent : Action
  sends : Descriptor → Action
  refuses : Descriptor → Action
  takes : Descriptor → Action
  finds_empty : Action

pub action : {size : ℕ} {s t : System} → Step size s t → Action
action (load_head s d e) = silent
action (refuse s d h e f) = refuses d
action (check_room s d h e f) = silent
action (write_slot s d h e) = silent
action (store_head s d h e) = sends d
action (load_tail s e) = silent
action (give_up s t e f) = finds_empty
action (check_item s t e f) = silent
action (read_slot s t e) = silent
action (store_tail s t d e) = takes d

-- The action on the queue of at most `cap` descriptors.
abbrev pub Moves : ℕ → Queue → Action → Queue → Type 0
Moves cap q silent q' = q' ≡ q
Moves cap q (sends d) q' = enqueue cap q d ≡ (true, q')
Moves cap q (refuses d) q' = enqueue cap q d ≡ (false, q')
Moves cap q (takes d) q' = dequeue q blank ≡ (true, d, q')
Moves cap q finds_empty q' = dequeue q blank ≡ (false, blank, q')

Step-Moves :
    {size : ℕ} {s t : System}
    → IsSize size
    → (st : Step size s t) → Inv size s
    → Inv size t
    → Moves (size - 1) (contents size s.ring) (action st) (contents size t.ring)
unfolding action enqueue dequeue
Step-Moves z (load_head s d e) v w = refl
Step-Moves {size} z (refuse s d h e f) v w = ground (
  arith,
  v,
  next-eq h z,
  length-span size s.ring.buffer s.ring.tail (used size s.ring),
  used-full size s.ring.head s.ring.tail v.valid.head_in v.valid.tail_in,
)
Step-Moves z (check_room s d h e f) v w = refl
Step-Moves z (write_slot s d h e) v w = ground (
  arith,
  v,
  span-set_head _ s.ring.head s.ring.tail v.valid.head_in v.valid.tail_in s.ring.buffer d,
)
Step-Moves {size} z (store_head s d h e) v w =
    let grown : contents size (record (s.ring) { head = u32 (next_index size h) })
        ≡ contents size s.ring ++ d ∷ [] =
      ground (
        arith,
        v,
        u32-next h z,
        span-next _ s.ring.head s.ring.tail v.valid.head_in v.valid.tail_in s.ring.buffer,
      ) in
    ground (
      arith,
      grown,
      ap length grown,
      length-append (contents size s.ring) (d ∷ []),
      length-contents-lt size (record (s.ring) { head = u32 (next_index size h) }) (IsSize-pos z),
    )
Step-Moves z (load_tail s e) v w = refl
Step-Moves {size} z (give_up s t e f) v w =
    ground (arith, v, used_same size s.ring.head s.ring.tail v.valid.head_in v.valid.tail_in)
Step-Moves z (check_item s t e f) v w = refl
Step-Moves z (read_slot s t e) v w = refl
Step-Moves {size} z (store_tail s t d e) v w = ground (
  arith,
  v,
  u32-next t z,
  span-tail size s.ring.head s.ring.tail v.valid.head_in v.valid.tail_in s.ring.buffer,
)

-- The actions of a run, the latest first.
pub trace : {size : ℕ} {fresh s : System} → Reach size fresh s → List Action
trace start = []
trace (later r st) = action st ∷ trace r

-- The actions, the latest first, lead from the empty queue to `q`.
abbrev pub Explains : ℕ → List Action → Queue → Type 0
Explains cap [] q = q ≡ []
Explains cap (a ∷ past) q = (p : Queue) × Explains cap past p × Moves cap p a q

-- What the calls of `push` that returned true were given, and those of `pop` gave out, in order.
abbrev pub pushed_in : List Action → List Descriptor
pushed_in [] = []
pushed_in (sends d ∷ past) = pushed_in past ++ d ∷ []
pushed_in (_ ∷ past) = pushed_in past

abbrev pub popped_in : List Action → List Descriptor
popped_in [] = []
popped_in (takes d ∷ past) = popped_in past ++ d ∷ []
popped_in (_ ∷ past) = popped_in past

Recorded : System → List Action → Type 0
Recorded s past = (s.sent ≡ pushed_in past) × (s.received ≡ popped_in past)

Step-Recorded :
    {size : ℕ} {s t : System} (st : Step size s t) (past : List Action)
    → Recorded s past
    → Recorded t (action st ∷ past)
unfolding action Recorded
Step-Recorded (store_head s d h e) past r = (ap (λ l. l ++ d ∷ []) r.0, r.1)
Step-Recorded (store_tail s t d e) past r = (r.0, ap (λ l. l ++ d ∷ []) r.1)
Step-Recorded (load_head s d e) past r = r
Step-Recorded (refuse s d h e f) past r = r
Step-Recorded (check_room s d h e f) past r = r
Step-Recorded (write_slot s d h e) past r = r
Step-Recorded (load_tail s e) past r = r
Step-Recorded (give_up s t e f) past r = r
Step-Recorded (check_item s t e f) past r = r
Step-Recorded (read_slot s t e) past r = r

explained :
    {size : ℕ} {fresh s : System}
    → IsSize size
    → Inv size fresh
    → contents size fresh.ring ≡ []
    → (r : Reach size fresh s) → Explains (size - 1) (trace r) (contents size s.ring)
unfolding trace
explained z v nothing start = nothing
explained z v nothing (later {s = s} r st) =
    let w = Reach-Inv z v r in
    (contents _ s.ring, explained z v nothing r, Step-Moves z st w (Step-Inv z st w))

recorded :
    {size : ℕ} {fresh s : System} (r : Reach size fresh s)
    → Recorded fresh []
    → Recorded s (trace r)
unfolding trace
recorded start h = h
recorded (later r st) h = Step-Recorded st (trace r) (recorded r h)

-- The ring is linearizable: every run of the two threads from a new ring, at whatever accesses they stand,
-- is explained by a sequence of actions on the queue bounded by SIZE - 1, one for each access, of which
-- an access that answers a call of `push` or `pop` is that call with its answer, a refusal included, and
-- the others do nothing. The queue ends as what the ring holds; what was sent and what was received are
-- what the actions put in and took out.
pub linearizes :
    {size : ℕ} {s : System}
    → IsSize size
    → (r : Reach size (quiet (create size none)) s)
    → Explains (size - 1) (trace r) (contents size s.ring)
      × (s.sent ≡ pushed_in (trace r))
      × (s.received ≡ popped_in (trace r))
unfolding Recorded create quiet
linearizes {size} z r =
    let e = explained z (create-Inv z) (create-contents size none) r in
    let (sent, received) = recorded r (refl, refl) in (e, sent, received)
