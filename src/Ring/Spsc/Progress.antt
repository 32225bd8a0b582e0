-- ===== src/Ring/Spsc/Progress.antt =====
-- Neither thread waits for the other: the consumer alone empties the ring.
use porth_core.Base.{
  ℕ, zero, suc, ◌<◌, ◌≡◌, ◌≢◌, refl, sym, ap, ◌∙◌, [], ◌∷◌, ◌++◌, append-nil, none, arith, length,
  length-append, ℕ_discrete, u32, get_or,
}
use porth_core.Ring.{Descriptor, blank, next_index, create}
use porth_core.Ring.Inv.{IsSize}
use porth_core.Ring.Span.{contents, used_same}
use porth_core.Ring.Spsc.{
  Producer, Consumer, got_tail, has_item, took, System, load_tail, check_item, read_slot,
  store_tail, Reach, start, later, quiet,
}
use porth_core.Ring.Spsc.Order.{Inv, Reach-Inv, create-Inv}
use porth_core.Ring.Spsc.Leave.{Reach-trans, producer_leaves, consumer_leaves}

-- The state after one `pop` by a consumer that was outside, of a ring with a descriptor.
popped_once : ℕ → System → System
popped_once size s = record s {
  ring = record (s.ring) { tail = u32 (next_index size s.ring.tail) };
  consumer = Consumer.outside;
  received = s.received ++ get_or s.ring.buffer s.ring.tail blank ∷ [];
}

one_pop :
    (size : ℕ) (s : System)
    → s.consumer ≡ Consumer.outside
    → s.ring.head ≢ s.ring.tail
    → Reach size s (popped_once size s)
unfolding popped_once
one_pop size s out more =
    let t : ℕ = s.ring.tail in
    let d : Descriptor = get_or s.ring.buffer t blank in
    let asks : System = record s { consumer = got_tail t } in
    let sees : System = record s { consumer = has_item t } in
    let reads : System = record s { consumer = took t d } in
    later {s = reads}
      (later {s = sees}
        (later {s = asks} (later start (load_tail s out)) (check_item asks t refl more))
        (read_slot sees t refl))
      (store_tail reads t d refl)

-- What the consumer comes to alone.
record Drained (size : ℕ) (s : System) : Type 0 where
  after : System
  run : Reach size s after
  quiet_producer : after.producer ≡ Producer.outside
  quiet_consumer : after.consumer ≡ Consumer.outside
  nothing : contents size after.ring ≡ []

popped_once-producer :
    (size : ℕ) (s : System)
    → s.producer ≡ Producer.outside
    → (popped_once size s).producer ≡ Producer.outside
unfolding popped_once
popped_once-producer size s e = e

popped_once-consumer : (size : ℕ) (s : System) → (popped_once size s).consumer ≡ Consumer.outside
unfolding popped_once
popped_once-consumer size s = refl

shorter :
    (size : ℕ) (s : System)
    → Inv size s
    → Inv size (popped_once size s)
    → suc (length (contents size (popped_once size s).ring)) ≡ length (contents size s.ring)
unfolding popped_once
shorter size s v w =
    let d : Descriptor = get_or s.ring.buffer s.ring.tail blank in
    let rest = contents size (popped_once size s).ring in
    omega (
      arith,
      ap length (sym v.in_order ∙ w.in_order),
      length-append s.received (contents size s.ring),
      length-append (s.received ++ d ∷ []) rest,
      length-append s.received (d ∷ []),
    )

drain_all :
    (n size : ℕ) (s : System)
    → IsSize size
    → Inv size s
    → s.producer ≡ Producer.outside
    → s.consumer ≡ Consumer.outside
    → length (contents size s.ring) < n
    → Drained size s
drain_all zero size s z v p c h = absurd (omega arith)
drain_all (suc n) size s z v p c h = elim (ℕ_discrete s.ring.head s.ring.tail) [
  | yes empty ↦ record {
    after = s;
    run = start;
    quiet_producer = p;
    quiet_consumer = c;
    nothing =
        ground (arith, used_same size s.ring.head s.ring.tail v.valid.head_in v.valid.tail_in);
  }
  | no more ↦
      let run = one_pop size s c more in
      let w = Reach-Inv z v run in
      let rest =
        drain_all n size (popped_once size s) z w (popped_once-producer size s p)
          (popped_once-consumer size s) (omega (arith, shorter size s v w)) in
      record {
        after = rest.after;
        run = Reach-trans run rest.run;
        quiet_producer = rest.quiet_producer;
        quiet_consumer = rest.quiet_consumer;
        nothing = rest.nothing;
      }
]

-- Nothing is ever stuck: from every state that the two threads can come to from a new ring, they can go on
-- by accesses of their own to a state in which both are outside their calls, the ring holds nothing, and
-- everything sent has been received.
pub drains :
    {size : ℕ} {s : System}
    → IsSize size
    → Reach size (quiet (create size none)) s
    → (t : System) × Reach size s t
      × (t.producer ≡ Producer.outside)
      × (t.consumer ≡ Consumer.outside)
      × (contents size t.ring ≡ [])
      × (t.received ≡ t.sent)
drains {size} {s} z r =
    let l = producer_leaves size s s.producer refl in
    let f = consumer_leaves size l.after l.after.consumer refl in
    let so_far = Reach-trans r (Reach-trans l.run f.run) in
    let v = Reach-Inv z (create-Inv z) so_far in
    let d =
      drain_all (suc (length (contents size f.after.ring))) size f.after z v (f.kept ∙ l.out) f.out
        (omega arith) in
    let w = Reach-Inv z v d.run in
    (
      d.after,
      Reach-trans (Reach-trans l.run f.run) d.run,
      d.quiet_producer,
      d.quiet_consumer,
      d.nothing,
      sym (w.in_order ∙ ap (λ q. d.after.received ++ q) d.nothing ∙ append-nil d.after.received),
    )
