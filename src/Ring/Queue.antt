-- ===== src/Ring/Queue.antt =====
-- The specification of the ring: a FIFO of at most `cap` descriptors, oldest first. Its unbounded part
-- is the mutex-guarded reference queue of tests/fuzz_ring_buffer.cpp.
use porth_core.Base.{ℕ, Bool, true, false, List, [], ◌∷◌, ◌++◌, if◌then◌else◌, ltb, length}
use porth_core.Ring.{Descriptor, Call, pushes, pops, Reply, pushed, popped}

abbrev pub Queue : Type 0
Queue = List Descriptor

-- `ReferenceQueue::pop`
unfoldable pub dequeue : Queue → Descriptor → Bool × Descriptor × Queue
dequeue [] out = (false, out, [])
dequeue (x ∷ q) out = (true, x, q)

-- `ReferenceQueue::push`, refused at the bound.
unfoldable pub enqueue : ℕ → Queue → Descriptor → Bool × Queue
enqueue cap q d = if ltb (length q) cap then (true, q ++ d ∷ []) else (false, q)

unfoldable pub run_queue : ℕ → Queue → List Call → List Reply × Queue
run_queue cap q [] = ([], q)
run_queue cap q (pushes d ∷ cs) =
    let (ok, q') = enqueue cap q d in
    let (replies, last) = run_queue cap q' cs in (pushed ok ∷ replies, last)
run_queue cap q (pops d ∷ cs) =
    let (ok, out, q') = dequeue q d in
    let (replies, last) = run_queue cap q' cs in (popped ok out ∷ replies, last)
