-- ===== src/Fuzz/Agree.antt =====
-- What the differential fuzzer can find: on every interleaving the ring and the reference queue agree, up to the
-- descriptor that the producer has in one of them only.
use porth_core.Base.{ℕ, ◌≡◌, sym, ap, arith, List, [], ◌∷◌, length}
use porth_core.Ring.{Ring, Descriptor}
use porth_core.Ring.Inv.{IsSize, IsValid}
use porth_core.Ring.Span.{contents}
use porth_core.Fuzz.{
  Consumer, testing, popping, verifying, stopped, aborted, Fuzzer, start, Thread, producer,
  consumer, step, run,
}
use porth_core.Fuzz.Held.{Agrees, Holds, Inv}
use porth_core.Fuzz.Consume.{consume-Inv}
use porth_core.Fuzz.Produce.{produce-Inv}

-- One step, of either thread, with the consumer at `c`.
by_consumer :
    {size n : ℕ} (c : Consumer) (t : Thread) (s : Fuzzer)
    → IsSize size
    → Inv size n (record s { consumer = c })
    → Inv size n (step size n t (record s { consumer = c }))
unfolding step
by_consumer (aborted a) t s z v = v
by_consumer c producer s z v = produce-Inv (record s { consumer = c }) z tt v
by_consumer c consumer s z v = consume-Inv c (record s { consumer = c }) z v v

run-Inv :
    {size n : ℕ} (ts : List Thread) (s : Fuzzer)
    → IsSize size
    → Inv size n s
    → Inv size n (run size n ts s)
unfolding run
run-Inv [] s z v = v
run-Inv (t ∷ ts) s z v = run-Inv ts _ z (by_consumer s.consumer t s z v)

start-Inv :
    {size : ℕ} (ring : Ring) (descs : List Descriptor)
    → IsValid size ring
    → contents size ring ≡ []
    → Inv size (length descs) (start ring descs)
unfolding start
start-Inv ring descs v nothing = record {
  valid = v;
  agrees = sym nothing;
  tally = omega (arith, ap length nothing);
  over = λ e. absurd (cc e);
  spent = λ e. absurd (cc e);
}

ended :
    {size n : ℕ} (c : Consumer) (s : Fuzzer)
    → Holds size n s s.producer c
    → c ≡ stopped
    → (s.popped_count ≡ n) × (s.left ≡ [])
ended stopped s v e =
    let left = v.spent v.agrees.0 in
    (omega (arith, v.tally, ap length v.agrees.1, ap length left), left)
ended (aborted a) s v e = absurd (cc)
ended testing s v e = absurd (cc)
ended popping s v e = absurd (cc)
ended (verifying d) s v e = absurd (cc)
ended Consumer.counting s v e = absurd (cc)

-- On every interleaving of the two tasks, from a ring that is valid and empty and any descriptors: no descriptor that
-- the ring delivers differs from the one that the reference delivers; an assertion fails only where the
-- reference has nothing yet because the producer is between its two pushes of that descriptor; and when the
-- consumer stops, every descriptor was delivered and counted and both queues are empty.
pub run-Agrees :
    {size : ℕ} (ts : List Thread) (ring : Ring) (descs : List Descriptor)
    → IsSize size
    → IsValid size ring
    → contents size ring ≡ []
    → let s = run size (length descs) ts (start ring descs) in
      Agrees (contents size s.dut) s.ref s.producer s.consumer
      × (s.consumer ≡ stopped → (s.popped_count ≡ length descs) × (s.left ≡ []))
run-Agrees {size} ts ring descs z v nothing =
    let inv = run-Inv ts (start ring descs) z (start-Inv ring descs v nothing) in
    (inv.agrees, ended _ _ inv)
