-- ===== src/Sim/Drain.antt =====
-- `process_dma`: which address it accepts, and that it empties the ring that stands there.
use porth_core.Base.{
  ℕ, zero, suc, ◌+◌, ◌^◌, ◌<◌, ◌≡◌, ◌≢◌, refl, sym, ap, ◌∙◌, ◌⊎◌, inl, inr, List, [], ◌∷◌, ◌++◌,
  Option, some, true, arith, length, length-append, length-replicate, u64, Bool-cases, Option-cases,
  replicate, append_assoc, append-nil, ◌-◌, ◌↔◌, min, ◌%◌, bit_and-mask,
}
use porth_core.Device.{Device}
use porth_core.Ring.{Ring, Descriptor, blank, pop}
use porth_core.Ring.Inv.{IsSize, IsValid}
use porth_core.Ring.Span.{contents, length-contents-lt}
use porth_core.Ring.Refine.{pop_cases, push_cases}
use porth_core.Sim.{
  Sim, Rings, drained, drain, accepts, process_dma, push_many, force_buffer_overflow, overflow_junk,
  sim_overflow_iterations, sim_default_shuttle_size,
}

pub shuttle-IsSize : IsSize sim_default_shuttle_size
shuttle-IsSize = record { k = 10; power = refl; small = omega arith }

-- What a drain comes to: the ring emptied, and every descriptor counted.
pub record Emptied (ring : Ring) (dev : Device) (out : Option (Ring × Device × List Descriptor))
    : Type 0 where
  pub last : Ring
  pub result :
      out
      ≡ some (
        last,
        record dev {
          counter = u64 (dev.counter + length (contents sim_default_shuttle_size ring));
        },
        contents sim_default_shuttle_size ring,
      )
  pub empty : contents sim_default_shuttle_size last ≡ []
  pub valid : IsValid sim_default_shuttle_size last

drain-Emptied :
    (fuel : ℕ) (ring : Ring) (desc : Descriptor) (dev : Device)
    → IsValid sim_default_shuttle_size ring
    → dev.counter < 2 ^ 64
    → length (contents sim_default_shuttle_size ring) < fuel
    → Emptied ring dev (drain fuel ring desc dev)
unfolding drain
drain-Emptied zero ring desc dev v c f = absurd (omega arith)
drain-Emptied (suc fuel) ring desc dev v c f = elim (pop_cases desc shuttle-IsSize v) [
  | inl (none_left, e) ↦ record {
    last = ring;
    result = ground (arith, e, none_left);
    empty = none_left;
    valid = v;
  }
  | inr (x, q, e, cons, w) ↦
      let ih : Emptied q (record dev { counter = u64 (dev.counter + 1) })
          (drain fuel q x (record dev { counter = u64 (dev.counter + 1) })) =
        drain-Emptied fuel q x (record dev { counter = u64 (dev.counter + 1) }) w (omega arith)
          (ground arith) in
      record {
        last = ih.last;
        result = ground (arith, e, cons, ih.result);
        empty = ih.empty;
        valid = ih.valid;
      }
]

-- A drain writes no register but the counter.
drain-keeps :
    (fuel : ℕ) (ring : Ring) (desc : Descriptor) (dev : Device) {last : Ring} {dev' : Device}
    {ds : List Descriptor}
    → drain fuel ring desc dev ≡ some (last, dev', ds)
    → dev' ≡ record dev { counter = dev'.counter }
unfolding drain
drain-keeps zero ring desc dev e = cc
drain-keeps (suc fuel) ring desc dev e = elim (Bool-cases (pop 1024 ring desc).0) [
  | inl got ↦
      elim (Option-cases (
        drain fuel (pop 1024 ring desc).2 (pop 1024 ring desc).1
          (record dev { counter = u64 (dev.counter + 1) }))) [
            | inl stuck ↦ ground arith
            | inr ((r, d, l), rest) ↦ ground (arith, drain-keeps fuel _ _ _ rest)
          ]
  | inr empty ↦ ground arith
]

-- `process_dma` changes no register but the counter, and neither the PHY nor the flags.
pub process_dma-keeps :
    (rings : Rings) (s : Sim)
    → let t = (process_dma rings s).0 in
      (t.dev ≡ record (s.dev) { counter = t.dev.counter })
      × (t.phy ≡ s.phy)
      × (t.corrupt_status ≡ s.corrupt_status)
      × (t.inject_deadlock ≡ s.inject_deadlock)
unfolding process_dma
process_dma-keeps rings s = elim (Option-cases (rings s.dev.data_ptr)) [
  | inl e ↦ ground arith
  | inr (ring, e) ↦ elim (Option-cases (drain sim_default_shuttle_size ring blank s.dev)) [
    | inl f ↦ ground arith
    | inr ((r, d, l), f) ↦ ground (arith, drain-keeps sim_default_shuttle_size ring blank s.dev f)
  ]
]

-- The guards accept exactly a non-null address on a 64-byte boundary which is the recorded one, if one
-- is recorded.
pub accepts_iff :
    (s : Sim)
    → (accepts s ≡ true) ↔ (
        (s.dev.data_ptr ≢ 0)
        × (s.dev.data_ptr % 64 ≡ 0)
        × ((s.last_valid_shuttle ≡ 0) ⊎ (s.last_valid_shuttle ≡ s.dev.data_ptr)))
unfolding accepts
accepts_iff s = (
  λ h. ground (arith, bit_and-mask 6 s.dev.data_ptr),
  λ h. ground (arith, bit_and-mask 6 s.dev.data_ptr),
)

-- Where the guards accept and a valid ring of 1024 stands at the address, `process_dma` takes every
-- descriptor of the ring in order and leaves it empty, adds their number to the counter modulo 2^64,
-- records the address, and changes nothing else. (No other thread runs meanwhile.)
pub process_dma_drains :
    (rings : Rings) (s : Sim) (ring : Ring)
    → accepts s ≡ true
    → rings s.dev.data_ptr ≡ some ring
    → IsValid sim_default_shuttle_size ring
    → s.dev.counter < 2 ^ 64
    → (last : Ring) × (process_dma rings s ≡ (
      record s {
        last_valid_shuttle = s.dev.data_ptr;
        dev = record (s.dev) {
          counter = u64 (s.dev.counter + length (contents sim_default_shuttle_size ring));
        };
      },
      drained s.dev.data_ptr last (contents sim_default_shuttle_size ring),
    ))
      × (contents sim_default_shuttle_size last ≡ [])
      × IsValid sim_default_shuttle_size last
unfolding process_dma
process_dma_drains rings s ring ok e v c =
    let d : Emptied ring s.dev (drain sim_default_shuttle_size ring blank s.dev) =
      drain-Emptied sim_default_shuttle_size ring blank s.dev v c
        (length-contents-lt sim_default_shuttle_size ring (omega arith)) in
    (d.last, ground (arith, d.result, accepts_iff s), d.empty, d.valid)

-- However many pushes of one descriptor are tried, the ring ends with those that fit behind what it had.
pub push_many-contents :
    (n : ℕ) (junk : Descriptor) (ring : Ring)
    → IsValid sim_default_shuttle_size ring
    → contents sim_default_shuttle_size (push_many n junk ring)
      ≡ contents sim_default_shuttle_size ring
        ++ replicate (min n (1023 - length (contents sim_default_shuttle_size ring))) junk
unfolding push_many
push_many-contents zero junk ring v =
    let none_fit : 0 ≡ min 0 (1023 - length (contents sim_default_shuttle_size ring)) =
      omega arith in
    sym (append-nil (contents sim_default_shuttle_size ring))
    ∙ ap (λ k. contents sim_default_shuttle_size ring ++ replicate k junk) none_fit
push_many-contents (suc n) junk ring v = elim (push_cases junk shuttle-IsSize v) [
  | inl (full, e) ↦
      let none_fit : min n (1023 - length (contents sim_default_shuttle_size ring))
          ≡ min (suc n) (1023 - length (contents sim_default_shuttle_size ring)) =
        omega arith in
      ap (λ p. contents sim_default_shuttle_size (push_many n junk p.1)) e
      ∙ push_many-contents n junk ring v
      ∙ ap (λ k. contents sim_default_shuttle_size ring ++ replicate k junk) none_fit
  | inr (q, e, more, w, room) ↦
      let one_more : min (suc n) (1023 - length (contents sim_default_shuttle_size ring))
          ≡ suc (min n (1023 - length (contents sim_default_shuttle_size q))) =
        omega (
          arith,
          ap length more,
          length-append (contents sim_default_shuttle_size ring) (junk ∷ []),
        ) in
      ap (λ p. contents sim_default_shuttle_size (push_many n junk p.1)) e
      ∙ rw one_more (
          push_many-contents n junk q w
          ∙ ap
              (λ l.
                l ++ replicate (min n (1023 - length (contents sim_default_shuttle_size q))) junk)
              more
          ∙ append_assoc (contents sim_default_shuttle_size ring) (junk ∷ []) _)
]

-- `force_buffer_overflow` leaves a valid ring of 1024 full, whatever it held: its own descriptors come
-- first, unchanged, and the junk descriptor fills the rest, up to 1023.
pub force_buffer_overflow-fills :
    (ring : Ring)
    → IsValid sim_default_shuttle_size ring
    → let old = contents sim_default_shuttle_size ring in
      let new = contents sim_default_shuttle_size (force_buffer_overflow ring) in
      (new ≡ old ++ replicate (1023 - length old) overflow_junk) × (length new ≡ 1023)
unfolding force_buffer_overflow
force_buffer_overflow-fills ring v = (
  filled,
  ap length filled
      ∙ length-append (contents sim_default_shuttle_size ring) _
      ∙ omega (
        arith,
        length-replicate (1023 - length (contents sim_default_shuttle_size ring)) overflow_junk,
        length-contents-lt sim_default_shuttle_size ring (omega arith),
      ),
)
  where
    filled :
        contents sim_default_shuttle_size (push_many sim_overflow_iterations overflow_junk ring)
        ≡ contents sim_default_shuttle_size ring
          ++ replicate (1023 - length (contents sim_default_shuttle_size ring)) overflow_junk
    filled =
        push_many-contents sim_overflow_iterations overflow_junk ring v
        ∙ ap (λ k. contents sim_default_shuttle_size ring ++ replicate k overflow_junk)
            (omega arith)
