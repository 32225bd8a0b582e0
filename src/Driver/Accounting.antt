-- ===== src/Driver/Accounting.antt =====
-- What a burst of `transmit` calls does to the ring and to the statistics.
use porth_core.Base.{
  ℕ, suc, ◌+◌, ◌-◌, ◌^◌, ◌<◌, ◌≡◌, refl, sym, ap, ◌∙◌, arith, List, [], ◌∷◌, ◌++◌, append-nil,
  append_assoc, some, u64, length, length-append, take, take-nil, take-none, take-some, ◌⊎◌, min,
  inl, inr,
}
use porth_core.Ring.{Ring, Descriptor}
use porth_core.Ring.Inv.{IsSize, IsValid}
use porth_core.Ring.Span.{contents}
use porth_core.Ring.Refine.{push_cases}
use porth_core.Telemetry.{Stats}
use porth_core.Driver.{Driver, Status, success, full, transmit, transmit_all}

abbrev pub bytes : List Descriptor → ℕ
bytes [] = 0
bytes (d ∷ ds) = d.len + bytes ds

-- A driver whose shuttle has the ring `r`, with the statistics `s` linked.
pub record Linked (size : ℕ) (r : Ring) (s : Stats) (d : Driver) : Type 0 where
  pub ring : d.shuttle.ring ≡ some r
  pub stats : d.stats ≡ some s
  pub valid : IsValid size r

-- The two outcomes of `transmit`.
pub transmit_cases :
    {size : ℕ} {r : Ring} {s : Stats} {d : Driver} (x : Descriptor)
    → IsSize size
    → Linked size r s d
    → ((suc (length (contents size r)) ≡ size)
        × ((d' : Driver) × (transmit size d x ≡ some (full, d'))
            × Linked size r (record s { dropped_packets = u64 (s.dropped_packets + 1) }) d'))
      ⊎ ((suc (length (contents size r)) < size)
          × ((d' : Driver) × (q : Ring) × (transmit size d x ≡ some (success, d'))
              × (contents size q ≡ contents size r ++ x ∷ [])
              × Linked size q
                  (record s {
                    total_packets = u64 (s.total_packets + 1);
                    total_bytes = u64 (s.total_bytes + x.len);
                  })
                  d'))
unfolding transmit
transmit_cases {size} {r} {s} {d} x z l = elim (push_cases x z l.valid) [
  | inl (no_room, e) ↦ inl (
    no_room,
    (
      record d {
        shuttle = record (d.shuttle) { ring = some r };
        stats = some (record s { dropped_packets = u64 (s.dropped_packets + 1) });
      },
      ground (arith, e, l.ring, l.stats),
      record { ring = refl; stats = refl; valid = l.valid },
    ),
  )
  | inr (q, e, more, v, room) ↦ inr (
    room,
    (
      record d {
        shuttle = record (d.shuttle) { ring = some q };
        stats = some (record s {
          total_packets = u64 (s.total_packets + 1);
          total_bytes = u64 (s.total_bytes + x.len);
        });
      },
      q,
      ground (arith, e, l.ring, l.stats),
      more,
      record { ring = refl; stats = refl; valid = v },
    ),
  )
]

-- What a burst comes to.
pub record Burst (size : ℕ) (r : Ring) (s : Stats) (d : Driver) (ds : List Descriptor)
    : Type 0 where
  pub statuses : List Status
  pub last : Driver
  pub ring : Ring
  pub after : Stats
  pub result : transmit_all size d ds ≡ some (statuses, last)
  pub linked : Linked size ring after last
  pub queued : contents size ring ≡ contents size r ++ take (size - 1 - length (contents size r)) ds
  pub packets :
      after.total_packets
      ≡ u64 (s.total_packets + min (length ds) (size - 1 - length (contents size r)))
  pub dropped :
      after.dropped_packets
      ≡ u64 (s.dropped_packets + (length ds - (size - 1 - length (contents size r))))
  pub volume :
      after.total_bytes
      ≡ u64 (s.total_bytes + bytes (take (size - 1 - length (contents size r)) ds))

pub record Fits (s : Stats) : Type 0 where
  pub packets : s.total_packets < 2 ^ 64
  pub bytes : s.total_bytes < 2 ^ 64
  pub dropped : s.dropped_packets < 2 ^ 64

-- A burst whose first descriptor was dropped.
after_drop :
    {size : ℕ} {r : Ring} {s : Stats} {d d' : Driver} {x : Descriptor} {xs : List Descriptor}
    → transmit size d x ≡ some (full, d')
    → suc (length (contents size r)) ≡ size
    → Fits s
    → Burst size r (record s { dropped_packets = u64 (s.dropped_packets + 1) }) d' xs
    → Burst size r s d (x ∷ xs)
unfolding transmit_all
after_drop {size} {r} {s} {d} {d'} {x} {xs} e no_room f b =
    let room : ℕ = size - 1 - length (contents size r) in
    let none_fit : room ≡ 0 = omega arith in
    let kept = take-none room (x ∷ xs) none_fit in
    let kept' = take-none room xs none_fit in
    record {
      statuses = full ∷ b.statuses;
      last = b.last;
      ring = b.ring;
      after = b.after;
      result = ground (arith, e, b.result);
      linked = b.linked;
      queued = b.queued ∙ ap (λ l. contents size r ++ l) (kept' ∙ sym kept);
      packets = omega (arith, b.packets, none_fit);
      dropped = omega (arith, b.dropped, none_fit);
      volume = ground (arith, b.volume, kept, kept');
    }

-- A burst whose first descriptor was queued.
after_send :
    {size : ℕ} {r q : Ring} {s : Stats} {d d' : Driver} {x : Descriptor} {xs : List Descriptor}
    → transmit size d x ≡ some (success, d')
    → suc (length (contents size r)) < size
    → contents size q ≡ contents size r ++ x ∷ []
    → Fits s
    → Burst size q
        (record s {
          total_packets = u64 (s.total_packets + 1);
          total_bytes = u64 (s.total_bytes + x.len);
        })
        d'
        xs
    → Burst size r s d (x ∷ xs)
unfolding transmit_all
after_send {size} {r} {q} {s} {d} {d'} {x} {xs} e free more f b =
    let room : ℕ = size - 1 - length (contents size r) in
    let room' : ℕ = size - 1 - length (contents size q) in
    let longer = ap length more ∙ length-append (contents size r) (x ∷ []) in
    let one_fits : room ≡ suc room' = omega (arith, longer) in
    let kept = take-some room room' x xs one_fits in
    record {
      statuses = success ∷ b.statuses;
      last = b.last;
      ring = b.ring;
      after = b.after;
      result = ground (arith, e, b.result);
      linked = b.linked;
      queued =
          b.queued
          ∙ ap (λ l. l ++ take room' xs) more
          ∙ append_assoc (contents size r) (x ∷ []) _
          ∙ ap (λ l. contents size r ++ l) (sym kept);
      packets = omega (arith, b.packets, one_fits);
      dropped = omega (arith, b.dropped, one_fits);
      volume = b.volume ∙ omega (arith, ap bytes kept);
    }

-- A burst on a valid ring with linked statistics: the descriptors that fit are queued in order behind
-- what is there and the others are dropped, and the counters rise, modulo 2^64, by the number and the
-- bytes of those queued and the number of those dropped. (Nothing is received meanwhile.)
pub transmit_all-Burst :
    {size : ℕ} {r : Ring} {s : Stats} {d : Driver} (ds : List Descriptor)
    → IsSize size
    → Fits s
    → Linked size r s d
    → Burst size r s d ds
unfolding transmit_all
transmit_all-Burst {size} {r} {s} {d} [] z f l = record {
  statuses = [];
  last = d;
  ring = r;
  after = s;
  result = refl;
  linked = l;
  queued = sym (ap (λ l. contents size r ++ l) (take-nil _) ∙ append-nil (contents size r));
  packets = omega arith;
  dropped = omega arith;
  volume = ground (arith, take-nil {A = Descriptor} (size - 1 - length (contents size r)));
}
transmit_all-Burst {size} {r} {s} {d} (x ∷ xs) z f l = elim (transmit_cases x z l) [
  | inl (no_room, (d', e, l')) ↦ after_drop e no_room f (
      transmit_all-Burst {d = d'} xs z
        (record { packets = f.packets; bytes = f.bytes; dropped = omega arith }) l')
  | inr (room, (d', q, e, more, l')) ↦ after_send e room more f (
      transmit_all-Burst {r = q} {d = d'} xs z
        (record { packets = omega arith; bytes = omega arith; dropped = f.dropped }) l')
]
