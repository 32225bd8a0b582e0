-- ===== src/Demo/Kept.antt =====
-- The measuring loop leaves the driver's memory as it is: what its destructor will free is what it would have freed
-- before.
use porth_core.Base.{
  ℕ, zero, suc, ◌+◌, ◌≡◌, refl, sym, ap, ◌∙◌, arith, Bool, Option, some, List, [], ◌∷◌,
  Option-cases, Bool-cases, inl, inr,
}
use porth_core.Resource.{Event}
use porth_core.Ring
use porth_core.Ring.{Ring, Descriptor, blank, push, pop}
use porth_core.Shuttle
use porth_core.Shuttle.{Shuttle}
use porth_core.Telemetry.{Stats}
use porth_core.Metric.{Metric}
use porth_core.Driver.{Driver, Status, transmit}
use porth_core.Xdp.{Portal, Nic, bridge_to_shuttle}
use porth_core.Demo.{
  Cycle, take_off, bridge, cycle, is_success, run_telemetry_stress_test, test_packet,
}

-- What the destructor of a shuttle with the ring `r` frees.
frees : ℕ → Shuttle → Ring → List Event
frees size s r = Shuttle.destroy size (record s { ring = some r })

-- Rings that own their buffer or do not, alike.
frees-owns :
    (size : ℕ) (s : Shuttle) (r q : Ring)
    → q.owns_buffer ≡ r.owns_buffer
    → frees size s q ≡ frees size s r
unfolding frees Shuttle.destroy Ring.destroy
frees-owns size s r q e = elim (Bool-cases r.owns_buffer) [
  | inl o ↦ ground (arith, e, o)
  | inr o ↦ ground (arith, e, o)
]

push-owns : (size : ℕ) (r : Ring) (x : Descriptor) → (push size r x).1.owns_buffer ≡ r.owns_buffer
unfolding push
push-owns size r x = ground arith

pop-owns : (size : ℕ) (r : Ring) (x : Descriptor) → (pop size r x).2.owns_buffer ≡ r.owns_buffer
unfolding pop
pop-owns size r x = ground arith

take_off-owns : (size n : ℕ) (r : Ring) → (take_off size n r).owns_buffer ≡ r.owns_buffer
unfolding take_off
take_off-owns size zero r = refl
take_off-owns size (suc n) r = take_off-owns size n _ ∙ pop-owns size r blank

bridge_to_shuttle-owns :
    (size : ℕ) (p : Portal) (nic : Nic) (r : Ring) (stats : Option Stats)
    → (bridge_to_shuttle size p nic r stats).1.owns_buffer ≡ r.owns_buffer
unfolding bridge_to_shuttle
bridge_to_shuttle-owns size p nic r stats = elim (Option-cases nic.peek) [
  | inl e ↦ ground (arith, e)
  | inr (desc, e) ↦
      ground (arith, e, push-owns size r (record { addr = nic.base desc.addr; len = desc.len }))
]

-- The ring put back where it was.
frees-same :
    (size : ℕ) (s : Shuttle) (r : Ring) → s.ring ≡ some r → frees size s r ≡ Shuttle.destroy size s
unfolding frees
frees-same size s r e = ap (λ o. Shuttle.destroy size (record s { ring = o })) (sym e)

transmit-frees :
    (size : ℕ) (d : Driver) (x : Descriptor) {status : Status} {d' : Driver}
    → transmit size d x ≡ some (status, d')
    → Shuttle.destroy size d'.shuttle ≡ Shuttle.destroy size d.shuttle
unfolding transmit frees
transmit-frees size d x {d' = d'} e = elim (Option-cases d.shuttle.ring) [
  | inl f ↦ absurd (ground (arith, e, f))
  | inr (r, f) ↦
      let q = (push size r x).1 in
      let s : Shuttle = d.shuttle in
      let after : d'.shuttle ≡ record s { ring = some q } = elim (Bool-cases (push size r x).0) [
        | inl g ↦ ground (arith, e, f, g)
        | inr g ↦ ground (arith, e, f, g)
      ] in
      ap (Shuttle.destroy size) after
      ∙ frees-owns size s r q (push-owns size r x)
      ∙ frees-same size s r f
]

bridge-frees :
    (size : ℕ) (p : Portal) (c : Cycle) (d : Driver) {d' : Driver}
    → bridge size p c d ≡ some d'
    → Shuttle.destroy size d'.shuttle ≡ Shuttle.destroy size d.shuttle
unfolding bridge frees
bridge-frees size p c d {d'} e = elim (Option-cases d.shuttle.ring) [
  | inl f ↦ absurd (ground (arith, e, f))
  | inr (r, f) ↦
      let first = take_off size c.taken_first r in
      let out = bridge_to_shuttle size p c.nic first d.stats in
      let q = take_off size c.taken_then out.1 in
      let s : Shuttle = d.shuttle in
      let after : d'.shuttle ≡ record s { ring = some q } = ground (arith, e, f) in
      ap (Shuttle.destroy size) after
      ∙ frees-owns size s r q (
          take_off-owns size c.taken_then out.1
          ∙ bridge_to_shuttle-owns size p c.nic first d.stats
          ∙ take_off-owns size c.taken_first r)
      ∙ frees-same size s r f
]

cycle-frees :
    (size : ℕ) (p : Portal) (i : ℕ) (c : Cycle) (d : Driver) (m : Metric) {goes_on : Bool}
    {d' : Driver} {m' : Metric}
    → cycle size p i c d m ≡ some (goes_on, d', m')
    → Shuttle.destroy size d'.shuttle ≡ Shuttle.destroy size d.shuttle
unfolding cycle
cycle-frees size p i c d m e = elim (Option-cases (bridge size p c d)) [
  | inl f ↦ absurd (ground (arith, e, f))
  | inr (b, f) ↦ elim (Option-cases (transmit size b test_packet)) [
    | inl g ↦ absurd (ground (arith, e, f, g))
    | inr ((status, t), g) ↦
        let same = transmit-frees size b test_packet g ∙ bridge-frees size p c d f in
        elim (Bool-cases (is_success status)) [
          | inl h ↦ ground (arith, e, f, g, h, same)
          | inr h ↦ ground (arith, e, f, g, h, same)
        ]
  ]
]

-- The loop's last driver frees what its first would have freed.
pub run-frees :
    (size : ℕ) (p : Portal) (left i : ℕ) (cs : List Cycle) (d : Driver) (m : Metric)
    {tries sent : ℕ} {last : Driver} {m' : Metric}
    → run_telemetry_stress_test size p left i cs d m ≡ some (tries, sent, last, m')
    → Shuttle.destroy size last.shuttle ≡ Shuttle.destroy size d.shuttle
unfolding run_telemetry_stress_test
run-frees size p zero i cs d m e = ground (arith, e)
run-frees size p (suc left) i [] d m e = ground (arith, e)
run-frees size p (suc left) i (c ∷ cs) d m e = elim (Option-cases (cycle size p i c d m)) [
  | inl f ↦ absurd (ground (arith, e, f))
  | inr ((goes_on, d', m'), f) ↦ elim (Bool-cases goes_on) [
    | inr g ↦ ground (arith, e, f, g, cycle-frees size p i c d m f)
    | inl g ↦ elim (Option-cases (run_telemetry_stress_test size p left (i + 1) cs d' m')) [
      | inl h ↦ absurd (ground (arith, e, f, g, h))
      | inr ((tries, sent, last, m''), h) ↦ ground (
        arith,
        e,
        f,
        g,
        h,
        cycle-frees size p i c d m f,
        run-frees size p left (i + 1) cs d' m' h,
      )
    ]
  ]
]
