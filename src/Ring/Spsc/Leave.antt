-- ===== src/Ring/Spsc/Leave.antt =====
-- Each call of the ring ends by accesses of its own thread, wherever it stands.
use porth_core.Base.{ℕ, ◌≡◌, refl, ◌∙◌, ℕ_discrete, set, get_or}
use porth_core.Ring.{Descriptor, blank, next_index}
use porth_core.Ring.Spsc.{
  Producer, got_head, has_room, wrote, Consumer, got_tail, has_item, took, System, Step, refuse,
  check_room, write_slot, store_head, give_up, check_item, read_slot, store_tail, Reach, start,
  later,
}

pub Reach-trans : {size : ℕ} {s t u : System} → Reach size s t → Reach size t u → Reach size s u
Reach-trans a start = a
Reach-trans a (later b st) = later (Reach-trans a b) st

-- A run that ends with the producer outside its call, the consumer where it was, and nothing of what was
-- sent before lost.
pub record Left (size : ℕ) (s : System) : Type 0 where
  pub after : System
  pub run : Reach size s after
  pub out : after.producer ≡ Producer.outside
  pub kept : after.consumer ≡ s.consumer

Left-after :
    {size : ℕ} {s t : System} → Step size s t → t.consumer ≡ s.consumer → Left size t → Left size s
Left-after st e l = record {
  after = l.after;
  run = Reach-trans (later start st) l.run;
  out = l.out;
  kept = l.kept ∙ e;
}

leaves_by_write :
    (size : ℕ) (s : System) (d : Descriptor) (h : ℕ) → s.producer ≡ has_room d h → Left size s
leaves_by_write size s d h e =
    let t : System = record s {
      ring = record (s.ring) { buffer = set s.ring.buffer h d };
      producer = wrote d h;
    } in
    record {
      after = _;
      run = later {s = t} (later start (write_slot s d h e)) (store_head t d h refl);
      out = refl;
      kept = refl;
    }

pub producer_leaves : (size : ℕ) (s : System) (pc : Producer) → s.producer ≡ pc → Left size s
producer_leaves size s Producer.outside e = record { after = s; run = start; out = e; kept = refl }
producer_leaves size s (wrote d h) e = record {
  after = _;
  run = later start (store_head s d h e);
  out = refl;
  kept = refl;
}
producer_leaves size s (has_room d h) e = leaves_by_write size s d h e
producer_leaves size s (got_head d h) e = elim (ℕ_discrete (next_index size h) s.ring.tail) [
  | yes full ↦ record {
    after = _;
    run = later start (refuse s d h e full);
    out = refl;
    kept = refl;
  }
  | no room ↦
      Left-after (check_room s d h e room) refl
        (leaves_by_write size (record s { producer = has_room d h }) d h refl)
]

-- So for the consumer, while the producer is outside.
pub record Freed (size : ℕ) (s : System) : Type 0 where
  pub after : System
  pub run : Reach size s after
  pub out : after.consumer ≡ Consumer.outside
  pub kept : after.producer ≡ s.producer

Freed-after :
    {size : ℕ} {s t : System}
    → Step size s t
    → t.producer ≡ s.producer
    → Freed size t
    → Freed size s
Freed-after st e l = record {
  after = l.after;
  run = Reach-trans (later start st) l.run;
  out = l.out;
  kept = l.kept ∙ e;
}

leaves_by_read : (size : ℕ) (s : System) (t : ℕ) → s.consumer ≡ has_item t → Freed size s
leaves_by_read size s t e =
    let d : Descriptor = get_or s.ring.buffer t blank in
    let u : System = record s { consumer = took t d } in
    record {
      after = _;
      run = later {s = u} (later start (read_slot s t e)) (store_tail u t d refl);
      out = refl;
      kept = refl;
    }

pub consumer_leaves : (size : ℕ) (s : System) (pc : Consumer) → s.consumer ≡ pc → Freed size s
consumer_leaves size s Consumer.outside e = record { after = s; run = start; out = e; kept = refl }
consumer_leaves size s (took t d) e = record {
  after = _;
  run = later start (store_tail s t d e);
  out = refl;
  kept = refl;
}
consumer_leaves size s (has_item t) e = leaves_by_read size s t e
consumer_leaves size s (got_tail t) e = elim (ℕ_discrete s.ring.head t) [
  | yes empty ↦ record {
    after = _;
    run = later start (give_up s t e empty);
    out = refl;
    kept = refl;
  }
  | no more ↦
      Freed-after (check_item s t e more) refl
        (leaves_by_read size (record s { consumer = has_item t }) t refl)
]
