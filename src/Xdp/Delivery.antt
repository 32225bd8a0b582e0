-- ===== src/Xdp/Delivery.antt =====
-- From the network card to the device: what passes of the bridge queue is what the device's `process_dma` takes.
use porth_core.Base.{
  ℕ, suc, ◌+◌, ◌-◌, ◌^◌, ◌<◌, ◌≡◌, sym, ap, ◌∙◌, arith, inl, inr, true, Bool-cases, List, [], ◌∷◌,
  ◌++◌, append-nil, append_assoc, Option, none, some, Option-cases, length, length-append, take,
  take-nil, take-none, take-some, take-append, length-take, u64, if◌then◌else◌,
}
use porth_core.Ring.{Ring, Descriptor}
use porth_core.Ring.Inv.{IsSize, IsValid}
use porth_core.Ring.Span.{contents}
use porth_core.Ring.Refine.{push_cases}
use porth_core.Telemetry.{Stats}
use porth_core.Sim.{Sim, Rings, accepts, process_dma, drained}
use porth_core.Sim.Drain.{shuttle-IsSize, process_dma_drains}
use porth_core.Xdp.{Portal, Nic, is_addr_valid, bridge_to_shuttle}
use porth_core.Xdp.Bridge.{bridge_all, packet_of}

-- The packet of a pass that the check of the address lets through.
abbrev pub passing : Portal → Nic → List Descriptor
passing p nic = elim nic.peek [
  | none ↦ []
  | some desc ↦
      if is_addr_valid p (nic.base desc.addr) desc.len then packet_of nic desc ∷ [] else []
]

abbrev pub passing_all : Portal → List Nic → List Descriptor
passing_all p [] = []
passing_all p (nic ∷ nics) = passing p nic ++ passing_all p nics

-- What the ring is after passes that brought `ds`.
pub record Bridged (size : ℕ) (r : Ring) (ds : List Descriptor) (q : Ring) : Type 0 where
  pub valid : IsValid size q
  pub queued : contents size q ≡ contents size r ++ take (size - 1 - length (contents size r)) ds

none-Bridged : {size : ℕ} {r : Ring} → IsValid size r → Bridged size r [] r
none-Bridged {size} {r} v = record {
  valid = v;
  queued = sym (ap (λ l. contents size r ++ l) (take-nil _) ∙ append-nil (contents size r));
}

full-Bridged :
    {size : ℕ} {r : Ring} (x : Descriptor)
    → IsValid size r
    → suc (length (contents size r)) ≡ size
    → Bridged size r (x ∷ []) r
full-Bridged {size} {r} x v no_room = record {
  valid = v;
  queued = sym (
      ap (λ l. contents size r ++ l) (take-none _ (x ∷ []) (omega (arith, no_room)))
      ∙ append-nil (contents size r));
}

one-Bridged :
    {size : ℕ} {r q : Ring} {x : Descriptor}
    → contents size q ≡ contents size r ++ x ∷ []
    → IsValid size q
    → suc (length (contents size r)) < size
    → Bridged size r (x ∷ []) q
one-Bridged {size} {r} {q} {x} more w room =
    let n : ℕ = size - 1 - length (contents size r) in
    let kept =
      take-some n (n - 1) x [] (omega (arith, room)) ∙ ap (λ l. x ∷ l) (take-nil (n - 1)) in
    record { valid = w; queued = more ∙ sym (ap (λ l. contents size r ++ l) kept) }

pass-Bridged :
    {size : ℕ} {r : Ring} (p : Portal) (nic : Nic) (stats : Option Stats)
    → IsSize size
    → IsValid size r
    → Bridged size r (passing p nic) (bridge_to_shuttle size p nic r stats).1
unfolding bridge_to_shuttle
pass-Bridged {size} {r} p nic stats z v = elim (Option-cases nic.peek) [
  | inl e ↦ rw e (none-Bridged v)
  | inr (desc, e) ↦ elim (Bool-cases (is_addr_valid p (nic.base desc.addr) desc.len)) [
    | inr bad ↦ rw (e, bad) (none-Bridged v)
    | inl ok ↦ elim (push_cases (packet_of nic desc) z v) [
      | inl (no_room, f) ↦ rw (e, ok, f) (full-Bridged _ v no_room)
      | inr (q, f, more, w, room) ↦ rw (e, ok, f) (one-Bridged more w room)
    ]
  ]
]

-- Passes one after the other.
then-Bridged :
    {size : ℕ} {r q t : Ring} {ds es : List Descriptor}
    → Bridged size r ds q
    → Bridged size q es t
    → Bridged size r (ds ++ es) t
then-Bridged {size} {r} {q} {t} {ds} {es} a b =
    let room : ℕ = size - 1 - length (contents size r) in
    let longer = ap length a.queued ∙ length-append (contents size r) (take room ds) in
    let left : size - 1 - length (contents size q) ≡ room - length ds =
      omega (arith, longer, length-take room ds) in
    record {
      valid = b.valid;
      queued =
          b.queued
          ∙ ap (λ l. l ++ take (size - 1 - length (contents size q)) es) a.queued
          ∙ append_assoc (contents size r) (take room ds) _
          ∙ ap (λ k. contents size r ++ (take room ds ++ take k es)) left
          ∙ ap (λ l. contents size r ++ l) (sym (take-append room ds es));
    }

bridge_all-Bridged :
    {size : ℕ} (p : Portal) (nics : List Nic) (r : Ring) (stats : Option Stats)
    → IsSize size
    → IsValid size r
    → Bridged size r (passing_all p nics) (bridge_all size p nics r stats).0
unfolding bridge_all
bridge_all-Bridged p [] r stats z v = none-Bridged v
bridge_all-Bridged {size} p (nic ∷ nics) r stats z v =
    let out = bridge_to_shuttle size p nic r stats in
    let first = pass-Bridged p nic stats z v in
    then-Bridged first (bridge_all-Bridged p nics out.1 out.2 z first.valid)

-- From the card to the device: after any passes of the bridge over a valid ring of 1024, a device whose guards
-- accept the ring's address takes in its next `process_dma` what was in the ring before, then the packets
-- that the check of the address let through, in order and as many as there was room for, and leaves the
-- ring empty and counts what it took. (No other thread runs meanwhile.)
pub bridged_delivered :
    (p : Portal) (nics : List Nic) (r : Ring) (stats : Option Stats) (rings : Rings) (s : Sim)
    → IsValid 1024 r
    → rings s.dev.data_ptr ≡ some (bridge_all 1024 p nics r stats).0
    → accepts s ≡ true
    → s.dev.counter < 2 ^ 64
    → let taken = contents 1024 r ++ take (1023 - length (contents 1024 r)) (passing_all p nics) in
      (last : Ring) × (process_dma rings s ≡ (
        record s {
          last_valid_shuttle = s.dev.data_ptr;
          dev = record (s.dev) { counter = u64 (s.dev.counter + length taken) };
        },
        drained s.dev.data_ptr last taken,
      ))
      × (contents 1024 last ≡ [])
bridged_delivered p nics r stats rings s v stands ok c =
    let b = bridge_all-Bridged p nics r stats shuttle-IsSize v in
    let (last, e, nothing, _) = process_dma_drains rings s _ ok stands b.valid c in
    (last, ground (arith, e, b.queued), nothing)
