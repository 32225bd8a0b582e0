-- ===== src/Driver/EndToEnd.antt =====
-- The driver and the device together: what `transmit` queues is what the device's `process_dma` takes.
use porth_core.Base.{
  All, ℕ, ◌+◌, ◌-◌, ◌^◌, ◌%◌, ◌<◌, ◌≤◌, ◌≡◌, ◌≢◌, refl, ap, ◌∙◌, inl, inr, arith, true, false, List,
  [], ◌∷◌, ◌++◌, Option, none, some, u64, length, take, take-long, ◌⊎◌, Option-cases, Bool-cases,
  if◌then◌else◌, ◌==◌,
}
use porth_core.Resource.{Event}
use porth_core.Device.{Device}
use porth_core.HugePage.{Os, Error}
use porth_core.Ring.{Ring, Descriptor, push}
use porth_core.Ring.Inv.{IsValid}
use porth_core.Ring.Span.{contents}
use porth_core.Shuttle
use porth_core.Shuttle.{Shuttle, built_shuttle, failed, get_device_addr}
use porth_core.Shuttle.Ownership.{create-ring}
use porth_core.Telemetry.{Stats, fresh_stats}
use porth_core.Sim.{
  Sim, Rings, Turn, Dma, idle, drained, accepts, process_dma, Draw, run_physics_loop, physics_step,
  apply_chaos_effects, update_thermal_model,
}
use porth_core.Sim.Loop.{run-keeps}
use porth_core.Sim.Drain.{shuttle-IsSize, accepts_iff, process_dma_drains}
use porth_core.Driver.{
  Driver, Status, built_driver, create, destroy, set_stats_link, transmit, transmit_all,
}
use porth_core.Driver.Accounting.{Linked, Fits, transmit_all-Burst}

Outcome-cases :
    (o : Shuttle.Outcome) → ((s : Shuttle) × (o ≡ built_shuttle s)) ⊎ ((e : Error) × (o ≡ failed e))
Outcome-cases (built_shuttle s) = inl (s, refl)
Outcome-cases (failed e) = inr (e, refl)

-- A driver that was just built over a region whose base is not null: its ring stands, is valid and empty,
-- its statistics are not linked, and the pointer register has the region's base, the others being as
-- they were.
pub create-handshake :
    (os : Os) (descriptors : ℕ) (regs : Device) {es : List Event} {d : Driver} {regs' : Device}
    → create 1024 os descriptors (some regs) ≡ (es, built_driver d regs')
    → regs'.data_ptr ≢ 0
    → (r : Ring) × (d.shuttle.ring ≡ some r)
      × IsValid 1024 r
      × (contents 1024 r ≡ [])
      × (d.stats ≡ none)
      × (regs' ≡ record regs { data_ptr = d.shuttle.memory.ptr })
unfolding create
create-handshake os descriptors regs {es} {d} {regs'} e some_page =
    elim (Outcome-cases (Shuttle.create 1024 os 0 descriptors).1) [
      | inr (t, f) ↦ absurd (ground (arith, e, f))
      | inl (s, f) ↦
          let placed =
            create-ring {capacity = 1024} os 0 descriptors shuttle-IsSize
              (ap (λ o. ((Shuttle.create 1024 os 0 descriptors).0, o)) f)
              (ground (arith, e, f, some_page)) in
          let (r, stands, valid, nothing, _, base) = placed in
          (
            r,
            ground (arith, e, f, stands),
            valid,
            nothing,
            ground (arith, e, f),
            ground (arith, e, f, base),
          )
    ]

-- The memory that the device reads: the driver's ring at the base of its region, and no other.
abbrev pub shared_memory : Driver → Rings
shared_memory d addr = if addr == d.shuttle.memory.ptr then d.shuttle.ring else none

-- A client's burst and then the device's `process_dma`.
pub exchange : Driver → Sim → List Descriptor → Option (List Status × Sim × Dma)
exchange d s ds = elim (transmit_all 1024 d ds) [
  | none ↦ none
  | some (statuses, d') ↦
      let (s', dma) = process_dma (shared_memory d') s in some (statuses, s', dma)
]

-- `transmit` leaves the region where it is.
transmit-memory :
    (d : Driver) (x : Descriptor) {status : Status} {d' : Driver}
    → transmit 1024 d x ≡ some (status, d')
    → d'.shuttle.memory ≡ d.shuttle.memory
unfolding transmit
transmit-memory d x e = elim (Option-cases d.shuttle.ring) [
  | inl f ↦ absurd (ground (arith, e, f))
  | inr (ring, f) ↦ elim (Bool-cases (push 1024 ring x).0) [
    | inl g ↦ ground (arith, e, f, g)
    | inr g ↦ ground (arith, e, f, g)
  ]
]

transmit_all-memory :
    (d : Driver) (ds : List Descriptor) {statuses : List Status} {last : Driver}
    → transmit_all 1024 d ds ≡ some (statuses, last)
    → last.shuttle.memory ≡ d.shuttle.memory
unfolding transmit_all
transmit_all-memory d [] e = ground (arith, e)
transmit_all-memory d (x ∷ xs) e = elim (Option-cases (transmit 1024 d x)) [
  | inl f ↦ absurd (ground (arith, e, f))
  | inr ((status, d'), f) ↦ elim (Option-cases (transmit_all 1024 d' xs)) [
    | inl g ↦ absurd (ground (arith, e, f, g))
    | inr ((rest, last), g) ↦
        ground (arith, e, f, g, transmit-memory d x f, transmit_all-memory d' xs g)
  ]
]

-- What the device takes of a driver's burst: the descriptors queued before it, then those of the burst
-- for which there was room, in order, and it leaves the ring empty.
pub exchange-drains :
    {r : Ring} {stats : Stats} {d : Driver} (s : Sim) (ds : List Descriptor)
    → Linked 1024 r stats d
    → Fits stats
    → accepts s ≡ true
    → s.dev.data_ptr ≡ d.shuttle.memory.ptr
    → s.dev.counter < 2 ^ 64
    → let sent = contents 1024 r ++ take (1023 - length (contents 1024 r)) ds in
      (statuses : List Status) × (last : Ring) × (exchange d s ds
        ≡ some (
          statuses,
          record s {
            last_valid_shuttle = s.dev.data_ptr;
            dev = record (s.dev) { counter = u64 (s.dev.counter + length sent) };
          },
          drained s.dev.data_ptr last sent,
        ))
      × (contents 1024 last ≡ [])
unfolding exchange
exchange-drains {r} {stats} {d} s ds l f ok shared c =
    let b = transmit_all-Burst ds shuttle-IsSize f l in
    let stands : shared_memory b.last s.dev.data_ptr ≡ some b.ring =
      ground (arith, transmit_all-memory d ds b.result, b.linked.ring) in
    let (last, e, nothing, _) =
      process_dma_drains (shared_memory b.last) s b.ring ok stands b.linked.valid c in
    (b.statuses, last, ground (arith, b.result, e, b.queued), nothing)

-- Client to device, over a driver that was just built with fresh statistics linked and a region whose
-- base is 64-byte aligned and not null: any burst of at most 1023 descriptors is all queued, and a device
-- which sees that driver's pointer register and memory, and has not yet recorded an address, takes in its
-- next `process_dma` exactly that burst, in order, leaves the ring empty and counts it. (No other thread
-- runs meanwhile.)
pub delivered :
    (os : Os) (descriptors : ℕ) (regs : Device) {es : List Event} {d : Driver} {regs' : Device}
    (s : Sim) (ds : List Descriptor)
    → create 1024 os descriptors (some regs) ≡ (es, built_driver d regs')
    → regs'.data_ptr ≢ 0
    → regs'.data_ptr % 64 ≡ 0
    → length ds ≤ 1023
    → s.dev.data_ptr ≡ regs'.data_ptr
    → s.last_valid_shuttle ≡ 0
    → s.dev.counter < 2 ^ 64
    → (statuses : List Status) × (last : Ring) × (exchange
          (set_stats_link (some fresh_stats) d)
          s
          ds
        ≡ some (
          statuses,
          record s {
            last_valid_shuttle = s.dev.data_ptr;
            dev = record (s.dev) { counter = u64 (s.dev.counter + length ds) };
          },
          drained s.dev.data_ptr last ds,
        ))
      × (contents 1024 last ≡ [])
unfolding set_stats_link
delivered os descriptors regs {es} {d} {regs'} s ds e some_page aligned fits shared unarmed c =
    let (r, stands, valid, nothing, _, base) = create-handshake os descriptors regs e some_page in
    let all : contents 1024 r ++ take (1023 - length (contents 1024 r)) ds ≡ ds =
      ap (λ l. l ++ take (1023 - length l) ds) nothing ∙ take-long 1023 ds fits in
    let (statuses, last, done, empty) =
      exchange-drains {r = r} {stats = fresh_stats} {d = record d { stats = some fresh_stats }} s ds
        (record { ring = stands; stats = refl; valid = valid })
        (record { packets = omega arith; bytes = omega arith; dropped = omega arith })
        (ground (arith, accepts_iff s)) (ground (arith, base)) c in
    (statuses, last, ground (arith, done, all), empty)

-- A device that is detached: no pointer, and no chaos to make one.
record Detached (s : Sim) : Type 0 where
  gone : s.dev.data_ptr ≡ 0
  calm : s.corrupt_status ≡ false

physics_step-Detached :
    (rings : Rings) (x : Draw) (s : Sim)
    → Detached s
    → Detached (physics_step rings x s).0 × ((physics_step rings x s).1 ≡ idle)
unfolding physics_step apply_chaos_effects update_thermal_model process_dma accepts
physics_step-Detached rings x s p = (
  record { gone = ground (arith, p.gone, p.calm); calm = ground (arith, p.gone, p.calm) },
  ground (arith, p.gone, p.calm),
)

-- Once the driver's destructor has run, a device over its registers whose chaos is off touches no ring in
-- any number of rounds, whatever its memory holds and its generator draws.
pub detached :
    (size : ℕ) (d : Driver) (regs : Device) (xs : List Turn) (s : Sim)
    → s.dev ≡ (destroy size d regs).2
    → s.corrupt_status ≡ false
    → All (λ dma. dma ≡ idle) (run_physics_loop xs s).0
unfolding destroy
detached size d regs xs s after calm =
    (run-keeps Detached (λ dma. dma ≡ idle) physics_step-Detached xs s
      (record { gone = ap (λ r. r.data_ptr) after; calm = calm })).1
