-- ===== src/Demo/Count.antt =====
-- What one iteration of the measuring loop does to the ring and to the statistics.
use mathlib.Core.Path.{subst}
use porth_core.Base.{
  ℕ, zero, suc, ◌+◌, ◌≤◌, ◌≡◌, inl, inr, refl, sym, ap, arith, Bool, true, false, Option, none,
  some, List, u64, Option-cases, if◌then◌else◌, ltb, ℕ_discrete, ◌%◌,
}
use porth_core.Ring.{Ring, Descriptor, blank}
use porth_core.Ring.Inv.{IsSize, IsValid}
use porth_core.Ring.Refine.{pop_cases}
use porth_core.Telemetry.{Stats}
use porth_core.Metric.{Metric, record_sample}
use porth_core.Driver.{Driver, count_sent, count_dropped}
use porth_core.Driver.Accounting.{Linked, transmit_cases}
use porth_core.Xdp.{Portal, Nic, bridge_to_shuttle, Effect}
use porth_core.Xdp.Bridge.{Ended, outside, queued, stuck, bridge_to_shuttle-Ended}
use porth_core.Demo.{
  Cycle, take_off, bridge, sample_temp, cycle, test_packet, with_ring, log_interval,
}

-- The packets counted, one way or the other.
abbrev pub tally : Stats → ℕ
tally s = u64 (s.total_packets + s.dropped_packets)

-- The packets that a pass finds at the card.
abbrev pub arrivals : Nic → ℕ
arrivals nic = elim nic.peek [ none ↦ 0 | some _ ↦ 1 ]

-- The temperature shown is not over the highest one.
abbrev pub IsTopped : Stats → Type 0
IsTopped s = s.current_temp_mc ≤ s.max_temp_mc

-- Statistics that have counted `n` packets more.
pub record Counts (n : ℕ) (s t : Stats) : Type 0 where
  pub tallied : tally t ≡ u64 (tally s + n)
  pub current : t.current_temp_mc ≡ s.current_temp_mc
  pub highest : t.max_temp_mc ≡ s.max_temp_mc

take_off-IsValid :
    {size : ℕ} (n : ℕ) {r : Ring} → IsSize size → IsValid size r → IsValid size (take_off size n r)
unfolding take_off
take_off-IsValid zero z v = v
take_off-IsValid {size} (suc n) {r} z v = elim (pop_cases blank z v) [
  | inl (nothing, e) ↦ take_off-IsValid n z (subst (IsValid size) (sym (ap (λ o. o.2) e)) v)
  | inr (x, q, e, first, w) ↦ take_off-IsValid n z (subst (IsValid size) (sym (ap (λ o. o.2) e)) w)
]

-- A pass of the bridge.
record Passed (size : ℕ) (nic : Nic) (s : Stats) (out : List Effect × Ring × Option Stats)
    : Type 0 where
  ring : IsValid size out.1
  after : Stats
  stats : out.2 ≡ some after
  counts : Counts (arrivals nic) s after

Ended-Passed :
    {size : ℕ} {p : Portal} {nic : Nic} {r : Ring} {s : Stats} {desc : Descriptor}
    {out : List Effect × Ring × Option Stats}
    → nic.peek ≡ some desc
    → IsValid size r
    → Ended size p nic r (some s) desc out
    → Passed size nic s out
unfolding count_sent count_dropped
Ended-Passed {nic = nic} e v (outside bad) = record {
  ring = v;
  after = _;
  stats = refl;
  counts = record { tallied = ground (arith, e); current = refl; highest = refl };
}
Ended-Passed {nic = nic} e v (queued ok more w) = record {
  ring = w;
  after = _;
  stats = refl;
  counts = record { tallied = ground (arith, e); current = refl; highest = refl };
}
Ended-Passed {nic = nic} e v (stuck ok no_room) = record {
  ring = v;
  after = _;
  stats = refl;
  counts = record { tallied = ground (arith, e); current = refl; highest = refl };
}

bridge_to_shuttle-Passed :
    {size : ℕ} {r : Ring} (p : Portal) (nic : Nic) (s : Stats)
    → IsSize size
    → IsValid size r
    → Passed size nic s (bridge_to_shuttle size p nic r (some s))
unfolding bridge_to_shuttle
bridge_to_shuttle-Passed p nic s z v = elim (Option-cases nic.peek) [
  | inl e ↦ rw e (record {
    ring = v;
    after = s;
    stats = refl;
    counts = record { tallied = omega arith; current = refl; highest = refl };
  })
  | inr (desc, e) ↦ Ended-Passed e v (bridge_to_shuttle-Ended p nic (some s) desc z v e)
]

-- The bridge, and what the device takes around it.
bridge-Linked :
    {size : ℕ} {r : Ring} {s : Stats} {d : Driver} (p : Portal) (c : Cycle)
    → IsSize size
    → Linked size r s d
    → (d' : Driver) × (q : Ring) × (t : Stats) × (bridge size p c d ≡ some d')
      × Linked size q t d'
      × Counts (arrivals c.nic) s t
unfolding bridge
bridge-Linked {size} {r} {s} {d} p c z l =
    let off = take_off-IsValid c.taken_first z l.valid in
    let passed = bridge_to_shuttle-Passed p c.nic s z off in
    let out = bridge_to_shuttle size p c.nic (take_off size c.taken_first r) (some s) in
    (
      with_ring (take_off size c.taken_then out.1) out.2 d,
      _,
      passed.after,
      rw (l.ring, l.stats) refl,
      record {
        ring = refl;
        stats = passed.stats;
        valid = take_off-IsValid c.taken_then z passed.ring;
      },
      passed.counts,
    )

-- The temperatures, of the iterations that sample them.
sample_temp-Linked :
    {size : ℕ} {r : Ring} {s : Stats} {d : Driver} (i temp : ℕ)
    → Linked size r s d
    → IsTopped s
    → (t : Stats) × Linked size r t (record d { stats = sample_temp i temp d.stats })
      × IsTopped t
      × (tally t ≡ tally s)
unfolding sample_temp
sample_temp-Linked {s = s} i temp l top = elim (ℕ_discrete (i % log_interval) 0) [
  | yes e ↦ (
    record s {
      max_temp_mc = if ltb s.max_temp_mc temp then temp else s.max_temp_mc;
      current_temp_mc = temp;
    },
    record { ring = l.ring; stats = ground (arith, l.stats, e); valid = l.valid },
    ground arith,
    refl,
  )
  | no e ↦
      (s, record { ring = l.ring; stats = ground (arith, l.stats, e); valid = l.valid }, top, refl)
]

-- What one iteration comes to.
pub record Cycled (size : ℕ) (p : Portal) (i : ℕ) (c : Cycle) (s : Stats) (d : Driver) (m : Metric)
    : Type 0 where
  pub goes_on : Bool
  pub last : Driver
  pub ring : Ring
  pub after : Stats
  pub result :
      cycle size p i c d m ≡ some (goes_on, last, if goes_on then record_sample c.elapsed m else m)
  pub linked : Linked size ring after last
  pub counted : tally after ≡ u64 (tally s + (arrivals c.nic + 1))
  pub topped : IsTopped after

pub cycle-Cycled :
    {size : ℕ} {r : Ring} {s : Stats} {d : Driver} (p : Portal) (i : ℕ) (c : Cycle) (m : Metric)
    → IsSize size
    → Linked size r s d
    → IsTopped s
    → Cycled size p i c s d m
unfolding cycle
cycle-Cycled {size} {r} {s} {d} p i c m z l top =
    let (d', q, t, e, linked, counts) = bridge-Linked p c z l in
    elim (transmit_cases test_packet z linked) [
      | inl (no_room, (d'', f, after)) ↦ record {
        goes_on = false;
        last = d'';
        ring = q;
        after = _;
        result = ground (arith, e, f);
        linked = after;
        counted = omega (arith, counts.tallied);
        topped = omega (arith, counts.current, counts.highest, top);
      }
      | inr (room, (d'', q', f, more, after)) ↦
          let (u, linked', top', same) =
            sample_temp-Linked i c.temp after
              (omega (arith, counts.current, counts.highest, top)) in
          record {
            goes_on = true;
            last = record d'' { stats = sample_temp i c.temp d''.stats };
            ring = q';
            after = u;
            result = ground (arith, e, f);
            linked = linked';
            counted = omega (arith, counts.tallied, same);
            topped = top';
          }
    ]
