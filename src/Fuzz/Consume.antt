-- ===== src/Fuzz/Consume.antt =====
-- The consumer of tests/fuzz_ring_buffer.cpp keeps the invariant.
use porth_core.Base.{
  ℕ, ◌≡◌, refl, sym, ap, ◌∙◌, arith, [], ◌∷◌, ◌++◌, append-nil, length, length-zero, inl, inr,
  Bool-cases, not, ◌&&◌, ltb,
}
use porth_core.Ring.{Descriptor, blank}
use porth_core.Ring.Inv.{IsSize}
use porth_core.Ring.Span.{contents}
use porth_core.Ring.Refine.{pop_cases}
use porth_core.Ring.Queue.{Queue, dequeue}
use porth_core.Fuzz.{
  Producer, pushing, owing, finished, Consumer, testing, popping, verifying, stopped, aborted,
  Fuzzer, verify_transfer, consumer_task,
}
use porth_core.Fuzz.Held.{owed, uncounted, Agrees, Holds, Inv}

none_owed : (p : Producer) (held ref : Queue) → p ≡ finished → ref ++ owed p ≡ held → ref ≡ held
none_owed finished held ref e f = sym (append-nil ref) ∙ f
none_owed pushing held ref e f = absurd (cc)
none_owed (owing d) held ref e f = absurd (cc)
none_owed Producer.counting held ref e f = absurd (cc)

-- Where the reference has nothing for what is in hand, that is owed to it.
last_owed :
    (p : Producer) (out : Descriptor) (held : Queue)
    → owed p ≡ out ∷ held
    → (d : Descriptor) × (p ≡ owing d) × (held ≡ [])
last_owed pushing out held f = absurd (cc)
last_owed finished out held f = absurd (cc)
last_owed Producer.counting out held f = absurd (cc)
last_owed (owing d) out held f = (d, refl, ground arith)

-- What the consumer finds when it verifies.
verify-Agrees :
    (p : Producer) (out : Descriptor) (ref held : Queue)
    → ref ++ owed p ≡ out ∷ held
    → let (ok, out_ref, ref') = dequeue ref blank in
      Agrees held ref' p (verify_transfer ok out_ref out)
      × (uncounted (verify_transfer ok out_ref out) ≡ 1)
unfolding verify_transfer dequeue
verify-Agrees p out [] held f = let (d, e, g) = last_owed p out held f in ((d, e, g, refl), refl)
verify-Agrees p out (y ∷ ref) held f =
    let same : y ≡ out = ground arith in rw (same, verify_transfer) (ground arith, ground arith)

pub consume-Inv :
    {size n : ℕ} (c : Consumer) (s : Fuzzer)
    → IsSize size
    → Inv size n s
    → Holds size n s s.producer c
    → Inv size n (consumer_task size n c s)
unfolding consumer_task
consume-Inv {size} {n} testing s z w v = elim (Bool-cases (s.done && not (ltb s.popped_count n))) [
  | inl ends ↦
      let over = v.over (ground (arith, ends)) in
      let left = v.spent over in
      let size_ : length (contents size s.dut) ≡ 0 = ground (arith, v.tally, ends, left) in
      let nothing = length-zero (contents size s.dut) size_ in
      rw ends (record {
        valid = v.valid;
        agrees = (over, nothing, none_owed s.producer _ s.ref over v.agrees ∙ nothing);
        tally = v.tally;
        over = v.over;
        spent = v.spent;
      })
  | inr more ↦ rw more (record {
    valid = v.valid;
    agrees = v.agrees;
    tally = v.tally;
    over = v.over;
    spent = v.spent;
  })
]
consume-Inv {size} {n} popping s z w v = elim (pop_cases blank z v.valid) [
  | inl (nothing, e) ↦ rw e (record {
    valid = v.valid;
    agrees = v.agrees;
    tally = v.tally;
    over = v.over;
    spent = v.spent;
  })
  | inr (x, q, e, first, ok) ↦ rw e (record {
    valid = ok;
    agrees = v.agrees ∙ first;
    tally = omega (arith, v.tally, ap length first);
    over = v.over;
    spent = v.spent;
  })
]
consume-Inv {size} (verifying out) s z w v =
    let (agrees, one) = verify-Agrees s.producer out s.ref (contents size s.dut) v.agrees in
    record {
      valid = v.valid;
      agrees = agrees;
      tally = omega (arith, v.tally, one);
      over = v.over;
      spent = v.spent;
    }
consume-Inv Consumer.counting s z w v = record {
  valid = v.valid;
  agrees = v.agrees;
  tally = omega (arith, v.tally);
  over = v.over;
  spent = v.spent;
}
consume-Inv stopped s z w v = w
consume-Inv (aborted a) s z w v = w
