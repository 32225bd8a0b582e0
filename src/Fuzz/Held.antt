-- ===== src/Fuzz/Held.antt =====
-- The invariant of the differential fuzzer of tests/fuzz_ring_buffer.cpp.
use porth_core.Base.{ℕ, ◌+◌, ◌≡◌, true, List, [], ◌∷◌, ◌++◌, length}
use porth_core.Ring.{Descriptor}
use porth_core.Ring.Inv.{IsValid}
use porth_core.Ring.Span.{contents}
use porth_core.Ring.Queue.{Queue}
use porth_core.Fuzz.{
  no_data, addr_mismatch, len_mismatch, Producer, owing, finished, Consumer, verifying, stopped,
  aborted, Fuzzer,
}

-- What the producer has pushed to the ring only, and what the consumer has taken off the ring only.
abbrev pub owed : Producer → List Descriptor
owed (owing d) = d ∷ []
owed _ = []

abbrev pub in_hand : Consumer → List Descriptor
in_hand (verifying d) = d ∷ []
in_hand _ = []

-- How many the consumer has taken that it has not counted.
abbrev pub uncounted : Consumer → ℕ
uncounted (verifying d) = 1
uncounted Consumer.counting = 1
uncounted (aborted a) = 1
uncounted _ = 0

-- How the ring's descriptors and the reference stand to each other, by where the threads are. The reference, with what
-- is owed to it, is what is in hand and what the ring holds; an assertion fails only in want of data, while
-- exactly the last descriptor is owed; and at the end nothing is left.
abbrev pub Agrees : Queue → Queue → Producer → Consumer → Type 0
Agrees held ref p (aborted no_data) = (d : Descriptor) × (p ≡ owing d) × (held ≡ []) × (ref ≡ [])
Agrees held ref p (aborted addr_mismatch) = ⊥
Agrees held ref p (aborted len_mismatch) = ⊥
Agrees held ref p stopped = (p ≡ finished) × (held ≡ []) × (ref ≡ [])
Agrees held ref p c = ref ++ owed p ≡ in_hand c ++ held

-- The invariant, for `n` descriptors in all and the threads at `p` and `c`.
pub record Holds (size n : ℕ) (s : Fuzzer) (p : Producer) (c : Consumer) : Type 0 where
  pub valid : IsValid size s.dut
  pub agrees : Agrees (contents size s.dut) s.ref p c
  pub tally : s.popped_count + uncounted c + length (contents size s.dut) + length s.left ≡ n
  pub over : s.done ≡ true → p ≡ finished
  pub spent : p ≡ finished → s.left ≡ []

abbrev pub Inv : ℕ → ℕ → Fuzzer → Type 0
Inv size n s = Holds size n s s.producer s.consumer

-- No assertion has failed.
abbrev pub Going : Consumer → Type 0
Going (aborted a) = ⊥
Going _ = Unit
