-- ===== src/Fuzz/Produce.antt =====
-- The producer of tests/fuzz_ring_buffer.cpp keeps the invariant.
use mathlib.Core.Path.{subst}
use porth_core.Base.{
  ℕ, ◌≡◌, ◌≢◌, refl, sym, ap, ◌∙◌, arith, List, [], ◌∷◌, ◌++◌, append-nil, length, length-append,
  inl, inr, Bool-cases,
}
use porth_core.Ring.{Descriptor, push}
use porth_core.Ring.Inv.{IsSize}
use porth_core.Ring.Span.{contents}
use porth_core.Ring.Refine.{push_cases}
use porth_core.Ring.Queue.{Queue}
use porth_core.Fuzz.{
  Producer, pushing, owing, finished, Consumer, testing, popping, verifying, stopped, aborted,
  Fuzzer, push_next, producer_task,
}
use porth_core.Fuzz.Held.{owed, Agrees, Holds, Inv, Going}

-- What a push to the ring, one to the reference, and the other moves of the producer do.
queued :
    (c : Consumer) (d : Descriptor) (held ref : Queue)
    → Going c
    → Agrees held ref pushing c
    → Agrees (held ++ d ∷ []) ref (owing d) c
queued (aborted a) d held ref g h = absurd g
queued stopped d held ref g h = absurd (cc (h.0))
queued testing d held ref g h = ap (λ l. l ++ d ∷ []) (sym (append-nil ref) ∙ h)
queued popping d held ref g h = ap (λ l. l ++ d ∷ []) (sym (append-nil ref) ∙ h)
queued Consumer.counting d held ref g h = ap (λ l. l ++ d ∷ []) (sym (append-nil ref) ∙ h)
queued (verifying x) d held ref g h = ap (λ l. l ++ d ∷ []) (sym (append-nil ref) ∙ h)

paid :
    (c : Consumer) (d : Descriptor) (held ref : Queue)
    → Going c
    → Agrees held ref (owing d) c
    → Agrees held (ref ++ d ∷ []) Producer.counting c
paid (aborted a) d held ref g h = absurd g
paid stopped d held ref g h = absurd (cc (h.0))
paid testing d held ref g h = append-nil (ref ++ d ∷ []) ∙ h
paid popping d held ref g h = append-nil (ref ++ d ∷ []) ∙ h
paid Consumer.counting d held ref g h = append-nil (ref ++ d ∷ []) ∙ h
paid (verifying x) d held ref g h = append-nil (ref ++ d ∷ []) ∙ h

moved :
    (c : Consumer) (p q : Producer) (held ref : Queue)
    → Going c
    → p ≢ finished
    → owed p ≡ owed q
    → Agrees held ref p c
    → Agrees held ref q c
moved (aborted a) p q held ref g ne e h = absurd g
moved stopped p q held ref g ne e h = absurd (ne h.0)
moved testing p q held ref g ne e h = ap (λ l. ref ++ l) (sym e) ∙ h
moved popping p q held ref g ne e h = ap (λ l. ref ++ l) (sym e) ∙ h
moved Consumer.counting p q held ref g ne e h = ap (λ l. ref ++ l) (sym e) ∙ h
moved (verifying x) p q held ref g ne e h = ap (λ l. ref ++ l) (sym e) ∙ h

-- A state with the producer where it is.
abbrev After : ℕ → ℕ → Fuzzer → Consumer → Type 0
After size n s c = Holds size n s s.producer c

push_next-Holds :
    {size n : ℕ} (ds : List Descriptor) (c : Consumer) (s : Fuzzer)
    → IsSize size
    → Going c
    → s.left ≡ ds
    → After size n s c
    → Holds size n s pushing c
    → After size n (push_next size ds s) c
unfolding push_next
push_next-Holds [] c s z g e w v = record {
  valid = v.valid;
  agrees = moved c pushing finished _ _ g (λ x. absurd (cc x)) refl v.agrees;
  tally = v.tally;
  over = λ _. refl;
  spent = λ _. e;
}
push_next-Holds {size} (d ∷ ds) c s z g e w v = elim (push_cases d z v.valid) [
  | inl (full, f) ↦ rw f w
  | inr (q, f, more, ok, room) ↦ rw f (record {
    valid = ok;
    agrees = subst (λ l. Agrees l s.ref (owing d) c) (sym more) (queued c d _ _ g v.agrees);
    tally = omega (
      arith,
      v.tally,
      ap length more ∙ length-append (contents size s.dut) (d ∷ []),
      ap length e,
    );
    over = λ x. absurd (cc (v.over x));
    spent = λ x. absurd (cc x);
  })
]

produce-Holds :
    {size n : ℕ} (p : Producer) (c : Consumer) (s : Fuzzer)
    → IsSize size
    → Going c
    → After size n s c
    → Holds size n s p c
    → After size n (producer_task size p s) c
unfolding producer_task
produce-Holds pushing c s z g w v = push_next-Holds s.left c s z g refl w v
produce-Holds (owing d) c s z g w v = record {
  valid = v.valid;
  agrees = paid c d _ _ g v.agrees;
  tally = v.tally;
  over = λ x. absurd (cc (v.over x));
  spent = λ x. absurd (cc x);
}
produce-Holds Producer.counting c s z g w v = record {
  valid = v.valid;
  agrees = moved c Producer.counting pushing _ _ g (λ x. absurd (cc x)) refl v.agrees;
  tally = v.tally;
  over = λ x. absurd (cc (v.over x));
  spent = λ x. absurd (cc x);
}
produce-Holds finished c s z g w v = w

push_next-consumer :
    (size : ℕ) (ds : List Descriptor) (s : Fuzzer) → (push_next size ds s).consumer ≡ s.consumer
unfolding push_next
push_next-consumer size [] s = refl
push_next-consumer size (d ∷ ds) s = elim (Bool-cases (push size s.dut d).0) [
  | inl e ↦ rw e refl
  | inr e ↦ rw e refl
]

producer_task-consumer :
    (size : ℕ) (p : Producer) (s : Fuzzer) → (producer_task size p s).consumer ≡ s.consumer
unfolding producer_task
producer_task-consumer size pushing s = push_next-consumer size s.left s
producer_task-consumer size (owing d) s = refl
producer_task-consumer size Producer.counting s = refl
producer_task-consumer size finished s = refl

pub produce-Inv :
    {size n : ℕ} (s : Fuzzer)
    → IsSize size
    → Going s.consumer
    → Inv size n s
    → Inv size n (producer_task size s.producer s)
produce-Inv {size} {n} s z g v =
    let s' = producer_task size s.producer s in
    subst (λ c. Holds size n s' s'.producer c) (sym (producer_task-consumer size s.producer s))
      (produce-Holds s.producer s.consumer s z g v v)
