-- ===== src/Tests/Ring.antt =====
-- The ring of include/porth/PorthRingBuffer.hpp at concrete inputs.
use porth_core.Base.{
  ℕ, ◌≡◌, ◌≢◌, ◌<◌, refl, arith, List, [], ◌∷◌, ◌++◌, none, true, false, length, set, ◌*◌, ◌-◌, u32,
}
use porth_core.Ring.{
  Descriptor, blank, create, push, pop, run, next_index, Call, pushes, pops, pushed, popped,
}
use porth_core.Ring.Queue.{run_queue}
use porth_core.Ring.Inv.{IsSize, create-IsValid}
use porth_core.Ring.Span.{contents}
use porth_core.Ring.Refine.{run_refines}
use porth_core.Ring.Spsc.{
  System, Producer, got_head, has_room, wrote, got_tail, has_item, load_head, check_room,
  write_slot, store_head, load_tail, check_item, Reach, start, later, quiet,
}
use porth_core.Ring.Spsc.Order.{fifo, no_race}
use porth_core.Ring.Spsc.Linear.{Explains, trace, pushed_in, popped_in, linearizes}
use porth_core.Ring.Spsc.Progress.{drains}
use porth_core.Ring.Spsc.{Consumer}

two-IsSize : IsSize 2
two-IsSize = record { k = 1; power = refl; small = omega arith }

abbrev packet : ℕ → Descriptor
packet n = record { addr = 4096 * n; len = 64 }

abbrev calls : List Call
calls =
    pushes (packet 1)
    ∷ pushes (packet 2)
    ∷ pops blank
    ∷ pushes (packet 3)
    ∷ pops blank
    ∷ pops blank
    ∷ []

run_of_calls :
    (run 2 (create 2 none) calls).0
    ≡ pushed true
      ∷ pushed false
      ∷ popped true (packet 1)
      ∷ pushed true
      ∷ popped true (packet 3)
      ∷ popped false blank
      ∷ []
unfolding run create push pop next_index
run_of_calls = refl

run_refines_example :
    ((run 2 (create 2 none) calls).0, contents 2 (run 2 (create 2 none) calls).1)
    ≡ run_queue 1 (contents 2 (create 2 none)) calls
run_refines_example = run_refines calls two-IsSize (create-IsValid two-IsSize)

-- One call of `push` into a new ring, step by step.
abbrev fresh : ℕ → System
fresh n = quiet (create n none)

abbrev starting : ℕ → System
starting n = record (fresh n) { producer = got_head (packet 1) 0 }

abbrev sending : ℕ → System
sending n = record (fresh n) { producer = has_room (packet 1) 0 }

abbrev written : ℕ → System
written n = record (fresh n) {
  ring = record ((fresh n).ring) { buffer = set (fresh n).ring.buffer 0 (packet 1) };
  producer = wrote (packet 1) 0;
}

abbrev sent_one : ℕ → System
sent_one n = record (written n) {
  ring = record ((written n).ring) { head = u32 (next_index n 0) };
  producer = Producer.outside;
  sent = packet 1 ∷ [];
}

sent_one-Reach : (n : ℕ) → next_index n 0 ≢ 0 → Reach n (fresh n) (sent_one n)
unfolding create quiet
sent_one-Reach n room =
    later {s = written n}
      (later {s = sending n}
        (later {s = starting n} (later start (load_head (fresh n) (packet 1) refl))
          (check_room (starting n) (packet 1) 0 refl room))
        (write_slot (sending n) (packet 1) 0 refl))
      (store_head (written n) (packet 1) 0 refl)

room_in_two : next_index 2 0 ≢ 0
unfolding next_index
room_in_two = ground arith

room_in_four : next_index 4 0 ≢ 0
unfolding next_index
room_in_four = ground arith

fifo_example :
    ((sent_one 2).sent ≡ (sent_one 2).received ++ contents 2 (sent_one 2).ring)
    × (length (contents 2 (sent_one 2).ring) < 2)
fifo_example = fifo two-IsSize (sent_one-Reach 2 room_in_two)

-- Both threads at work on a larger ring: the producer before its write, the consumer before its read.
abbrev again : System
again = record (sent_one 4) { producer = got_head (packet 2) 1 }

abbrev filling : System
filling = record (sent_one 4) { producer = has_room (packet 2) 1 }

abbrev asking : System
asking = record filling { consumer = got_tail 0 }

abbrev both : System
both = record filling { consumer = has_item 0 }

filling-Reach : Reach 4 (fresh 4) filling
unfolding create quiet next_index
filling-Reach =
    later {s = again}
      (later (sent_one-Reach 4 room_in_four) (load_head (sent_one 4) (packet 2) refl))
      (check_room again (packet 2) 1 refl (ground arith))

both-Reach : Reach 4 (fresh 4) both
unfolding create quiet next_index
both-Reach =
    later {s = asking} (later filling-Reach (load_tail filling refl))
      (check_item asking 0 refl (ground arith))

no_race_example : (◌≢◌ {A = ℕ} 1 0) × (1 < length both.ring.buffer) × (0 < length both.ring.buffer)
no_race_example =
    no_race (packet 2) 1 0 (record { k = 2; power = refl; small = omega arith }) both-Reach refl
      refl

linearizes_example :
    Explains (2 - 1) (trace (sent_one-Reach 2 room_in_two)) (contents 2 (sent_one 2).ring)
    × ((sent_one 2).sent ≡ pushed_in (trace (sent_one-Reach 2 room_in_two)))
    × ((sent_one 2).received ≡ popped_in (trace (sent_one-Reach 2 room_in_two)))
linearizes_example = linearizes two-IsSize (sent_one-Reach 2 room_in_two)

-- The producer has just stored its slot, and the descriptor is still in the ring.
drains_example :
    (t : System) × Reach 2 (sent_one 2) t
    × (t.producer ≡ Producer.outside)
    × (t.consumer ≡ Consumer.outside)
    × (contents 2 t.ring ≡ [])
    × (t.received ≡ t.sent)
drains_example = drains two-IsSize (sent_one-Reach 2 room_in_two)
