-- ===== src/Fuzz.antt =====
-- tests/fuzz_ring_buffer.cpp: the producer and the consumer of the differential fuzzer, over the ring and the reference
-- queue. A step is one call of the ring, one call of the reference under its mutex, or one access of a
-- counter; Ring/Spsc/Linear shows that the ring's calls take effect at one point each. `size` is RING_SIZE,
-- `operations` is OPERATIONS, and the random descriptors are a list.
pub mod Held
pub mod Consume
pub mod Produce
pub mod Agree
pub mod Misfire
use porth_core.Base.{
  ℕ, ◌+◌, Bool, true, false, not, ◌&&◌, List, [], ◌∷◌, ◌++◌, ltb, ◌==◌, if◌then◌else◌,
}
use porth_core.Ring.{Ring, Descriptor, blank, push, pop}
use porth_core.Ring.Queue.{Queue, dequeue}

-- The assertions of `verify_transfer`.
pub data Assertion : Type 0 where
  no_data addr_mismatch len_mismatch : Assertion

-- Where `producer_task` stands: before a push to the ring, between it and the push to the reference, before the
-- counter, and behind the loop.
pub data Producer : Type 0 where
  pushing : Producer
  owing : Descriptor → Producer
  counting : Producer
  finished : Producer

-- Where `consumer_task` stands: before the loop's condition, before the pop, before the verification of what it took,
-- before the counter, behind the loop, and at an assertion that failed, which ends the program.
pub data Consumer : Type 0 where
  testing : Consumer
  popping : Consumer
  verifying : Descriptor → Consumer
  counting : Consumer
  stopped : Consumer
  aborted : Assertion → Consumer

-- What the threads share, and their places; `left` are the descriptors still to be pushed.
pub record Fuzzer : Type 0 where
  pub dut : Ring
  pub ref : Queue
  pub done : Bool
  pub pushed_count : ℕ
  pub popped_count : ℕ
  pub left : List Descriptor
  pub producer : Producer
  pub consumer : Consumer

-- `main`, before the threads run.
unfoldable pub start : Ring → List Descriptor → Fuzzer
start ring descs = record {
  dut = ring;
  ref = [];
  done = false;
  pushed_count = 0;
  popped_count = 0;
  left = descs;
  producer = pushing;
  consumer = testing;
}

-- One attempt at the ring; a full ring makes the producer yield and try again.
unfoldable pub push_next : ℕ → List Descriptor → Fuzzer → Fuzzer
push_next size [] s = record s { done = true; producer = finished }
push_next size (d ∷ ds) s =
    let (ok, dut') = push size s.dut d in
    if ok then record s { dut = dut'; left = ds; producer = owing d } else s

unfoldable pub producer_task : ℕ → Producer → Fuzzer → Fuzzer
unfolding push_next
producer_task size pushing s = push_next size s.left s
producer_task size (owing d) s = record s { ref = s.ref ++ d ∷ []; producer = Producer.counting }
producer_task size Producer.counting s = record s {
  pushed_count = s.pushed_count + 1;
  producer = pushing;
}
producer_task size finished s = s

-- `verify_transfer`, from what the reference's pop returned and wrote: where the consumer goes on.
unfoldable pub verify_transfer : Bool → Descriptor → Descriptor → Consumer
verify_transfer ref_success out_ref out_dut =
    if not ref_success
    then aborted no_data
    else if not (out_dut.addr == out_ref.addr)
    then aborted addr_mismatch
    else if not (out_dut.len == out_ref.len)
    then aborted len_mismatch
    else Consumer.counting

unfoldable pub consumer_task : ℕ → ℕ → Consumer → Fuzzer → Fuzzer
unfolding verify_transfer
consumer_task size operations testing s = record s {
  consumer = if s.done && not (ltb s.popped_count operations) then stopped else popping;
}
consumer_task size operations popping s =
    let (got, out, dut') = pop size s.dut blank in
    if got
    then record s { dut = dut'; consumer = verifying out }
    else record s { consumer = testing }
consumer_task size operations (verifying out) s =
    let (ok, out_ref, ref') = dequeue s.ref blank in
    record s { ref = ref'; consumer = verify_transfer ok out_ref out }
consumer_task size operations Consumer.counting s = record s {
  popped_count = s.popped_count + 1;
  consumer = testing;
}
consumer_task size operations stopped s = s
consumer_task size operations (aborted a) s = s

pub data Thread : Type 0 where
  producer consumer : Thread

-- One step of a thread, while no assertion has failed.
unfoldable pub step : ℕ → ℕ → Thread → Fuzzer → Fuzzer
unfolding producer_task consumer_task
step size operations t s = elim s.consumer [
  | aborted a ↦ s
  | c ↦ elim t [
    | producer ↦ producer_task size s.producer s
    | consumer ↦ consumer_task size operations c s
  ]
]

-- An interleaving of the two.
unfoldable pub run : ℕ → ℕ → List Thread → Fuzzer → Fuzzer
unfolding step
run size operations [] s = s
run size operations (t ∷ ts) s = run size operations ts (step size operations t s)
