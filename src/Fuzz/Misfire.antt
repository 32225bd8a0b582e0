-- ===== src/Fuzz/Misfire.antt =====
-- Interleavings of the differential fuzzer: one on which a correct ring fails it, and one on which it runs to its end.
use porth_core.Base.{ℕ, ◌+◌, ◌≤◌, ◌≡◌, ap, ◌∙◌, arith, true, false, List, [], ◌∷◌, length}
use porth_core.Ring.{Ring, Descriptor, blank, push, pop}
use porth_core.Ring.Inv.{IsSize, IsValid}
use porth_core.Ring.Span.{contents}
use porth_core.Ring.Refine.{through}
use porth_core.Ring.Queue.{dequeue}
use porth_core.Fuzz.{
  no_data, pushing, testing, stopped, aborted, Fuzzer, start, push_next, producer_task,
  verify_transfer, consumer_task, Thread, producer, consumer, step, run,
}

-- A consumer that takes the first descriptor between the producer's push to the ring and its push to the reference
-- fails the assertion for missing data: from any valid and empty ring of two slots or more.
pub misfires :
    {size : ℕ} (ring : Ring) (d : Descriptor) (ds : List Descriptor)
    → IsSize size
    → 2 ≤ size
    → IsValid size ring
    → contents size ring ≡ []
    → (run size
        (length (d ∷ ds))
        (producer ∷ consumer ∷ consumer ∷ consumer ∷ [])
        (start ring (d ∷ ds))).consumer
      ≡ aborted no_data
unfolding run step start producer_task push_next consumer_task verify_transfer dequeue
misfires ring d ds z two v nothing =
    let (q, q', pushed, popped, w, empty) = through d blank ring z two v nothing in
    ground (arith, pushed, popped)

-- Turns that let the producer come to its counter before the consumer looks.
abbrev pub polite : List Descriptor → List Thread
polite [] = producer ∷ consumer ∷ []
polite (d ∷ ds) =
    producer ∷ producer ∷ producer ∷ consumer ∷ consumer ∷ consumer ∷ consumer ∷ polite ds

-- Between two descriptors.
abbrev at_round : Ring → ℕ → ℕ → List Descriptor → Fuzzer
at_round r m k ds = record {
  dut = r;
  ref = [];
  done = false;
  pushed_count = m;
  popped_count = k;
  left = ds;
  producer = pushing;
  consumer = testing;
}

one_round :
    (size n m k : ℕ) (r q q' : Ring) (d : Descriptor) (ds : List Descriptor)
    → push size r d ≡ (true, q)
    → pop size q blank ≡ (true, d, q')
    → run size n (polite (d ∷ ds)) (at_round r m k (d ∷ ds))
      ≡ run size n (polite ds) (at_round q' (m + 1) (k + 1) ds)
unfolding run step producer_task push_next consumer_task verify_transfer dequeue
one_round size n m k r q q' d ds e f = ground (arith, e, f)

finishes_from :
    {size : ℕ} (n m k : ℕ) (r : Ring) (ds : List Descriptor)
    → IsSize size
    → 2 ≤ size
    → IsValid size r
    → contents size r ≡ []
    → k + length ds ≡ n
    → (run size n (polite ds) (at_round r m k ds)).consumer ≡ stopped
unfolding run step producer_task push_next consumer_task
finishes_from n m k r [] z two v nothing e = ground (arith, e)
finishes_from {size} n m k r (d ∷ ds) z two v nothing e =
    let (q, q', pushed, popped, w, empty) = through d blank r z two v nothing in
    ap (λ s. s.consumer) (one_round size n m k r q q' d ds pushed popped)
    ∙ finishes_from n (m + 1) (k + 1) q' ds z two w empty (omega (arith, e))

-- For any descriptors there is an interleaving on which the consumer stops and no assertion fails, from any valid and
-- empty ring of two slots or more.
pub finishes :
    {size : ℕ} (ring : Ring) (descs : List Descriptor)
    → IsSize size
    → 2 ≤ size
    → IsValid size ring
    → contents size ring ≡ []
    → (run size (length descs) (polite descs) (start ring descs)).consumer ≡ stopped
unfolding start
finishes ring descs z two v nothing =
    finishes_from (length descs) 0 0 ring descs z two v nothing (omega arith)
