-- ===== src/Ring/Spsc.antt =====
-- The two threads of include/porth/PorthRingBuffer.hpp, one shared access at a time: the producer in
-- `push`, the consumer in `pop`. The accesses are taken in one global order (the release stores and
-- acquire loads of the indices order the slot accesses around them); local variables are in the
-- threads' program counters.
pub mod Order
pub mod Linear
pub mod Leave
pub mod Progress
use porth_core.Base.{ℕ, ◌≡◌, ◌≢◌, List, [], ◌∷◌, ◌++◌, u32, set, get_or}
use porth_core.Ring.{Ring, Descriptor, blank, next_index}

-- Where `push(desc)` stands: before it, after the load of m_head, after the load of m_tail with the
-- check passed, and after the write of the slot.
pub data Producer : Type 0 where
  outside : Producer
  got_head : Descriptor → (h : ℕ) → Producer
  has_room : Descriptor → (h : ℕ) → Producer
  wrote : Descriptor → (h : ℕ) → Producer

-- Where `pop(out_desc)` stands: before it, after the load of m_tail, after the load of m_head with the
-- check passed, and after the read of the slot.
pub data Consumer : Type 0 where
  outside : Consumer
  got_tail : (t : ℕ) → Consumer
  has_item : (t : ℕ) → Consumer
  took : (t : ℕ) → Descriptor → Consumer

-- The shared object, the threads, and what the calls that returned true have sent and received.
pub record System : Type 0 where
  pub ring : Ring
  pub producer : Producer
  pub consumer : Consumer
  pub sent : List Descriptor
  pub received : List Descriptor

-- One step of one thread.
pub data Step (size : ℕ) : System → System → Type 0 where
  load_head :
      (s : System) (d : Descriptor)
      → s.producer ≡ Producer.outside
      → Step size s (record s { producer = got_head d s.ring.head })
  refuse :
      (s : System) (d : Descriptor) (h : ℕ)
      → s.producer ≡ got_head d h
      → next_index size h ≡ s.ring.tail
      → Step size s (record s { producer = Producer.outside })
  check_room :
      (s : System) (d : Descriptor) (h : ℕ)
      → s.producer ≡ got_head d h
      → next_index size h ≢ s.ring.tail
      → Step size s (record s { producer = has_room d h })
  write_slot :
      (s : System) (d : Descriptor) (h : ℕ)
      → s.producer ≡ has_room d h
      → Step size s (record s {
        ring = record (s.ring) { buffer = set s.ring.buffer h d };
        producer = wrote d h;
      })
  store_head :
      (s : System) (d : Descriptor) (h : ℕ)
      → s.producer ≡ wrote d h
      → Step size s (record s {
        ring = record (s.ring) { head = u32 (next_index size h) };
        producer = Producer.outside;
        sent = s.sent ++ d ∷ [];
      })
  load_tail :
      (s : System)
      → s.consumer ≡ Consumer.outside
      → Step size s (record s { consumer = got_tail s.ring.tail })
  give_up :
      (s : System) (t : ℕ)
      → s.consumer ≡ got_tail t
      → s.ring.head ≡ t
      → Step size s (record s { consumer = Consumer.outside })
  check_item :
      (s : System) (t : ℕ)
      → s.consumer ≡ got_tail t
      → s.ring.head ≢ t
      → Step size s (record s { consumer = has_item t })
  read_slot :
      (s : System) (t : ℕ)
      → s.consumer ≡ has_item t
      → Step size s (record s { consumer = took t (get_or s.ring.buffer t blank) })
  store_tail :
      (s : System) (t : ℕ) (d : Descriptor)
      → s.consumer ≡ took t d
      → Step size s (record s {
        ring = record (s.ring) { tail = u32 (next_index size t) };
        consumer = Consumer.outside;
        received = s.received ++ d ∷ [];
      })

-- The states that the two threads can come to, from a ring with both indices 0.
pub data Reach (size : ℕ) (fresh : System) : System → Type 0 where
  start : Reach size fresh fresh
  later : {s t : System} → Reach size fresh s → Step size s t → Reach size fresh t

-- Both threads outside, nothing sent.
unfoldable pub quiet : Ring → System
quiet r = record {
  ring = r;
  producer = Producer.outside;
  consumer = Consumer.outside;
  sent = [];
  received = [];
}
