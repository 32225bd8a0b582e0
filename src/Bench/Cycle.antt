-- ===== src/Bench/Cycle.antt =====
-- The benchmark of benchmarks/porth_perf_suite.cpp: what its rounds leave of the ring.
use porth_core.Base.{ℕ, zero, suc, ◌≤◌, ◌≡◌, refl, arith, [], if◌then◌else◌, ◌==◌}
use porth_core.Ring.{Ring, Descriptor}
use porth_core.Ring.Inv.{IsSize, IsValid}
use porth_core.Ring.Span.{contents}
use porth_core.Ring.Refine.{through}
use porth_core.Bench.{bm_ring_buffer_latency}

-- Every round of the benchmark, on a valid and empty ring of two slots or more, measures a push that succeeds and a
-- pop that takes the same descriptor: after any number of rounds the ring is valid and empty, and `out` holds
-- the descriptor unless there was no round.
pub bm_ring_buffer_latency-through :
    {size : ℕ} (n : ℕ) (desc : Descriptor) (ring : Ring) (out : Descriptor)
    → IsSize size
    → 2 ≤ size
    → IsValid size ring
    → contents size ring ≡ []
    → (last : Ring) × (bm_ring_buffer_latency size n desc ring out
        ≡ (last, if n == 0 then out else desc))
      × IsValid size last
      × (contents size last ≡ [])
unfolding bm_ring_buffer_latency
bm_ring_buffer_latency-through zero desc ring out z two v nothing = (ring, refl, v, nothing)
bm_ring_buffer_latency-through {size} (suc n) desc ring out z two v nothing =
    let (q, q', pushed, popped, w, empty) = through desc out ring z two v nothing in
    let (last, e, w', empty') = bm_ring_buffer_latency-through n desc q' desc z two w empty in
    (last, ground (arith, pushed, popped, e), w', empty')
