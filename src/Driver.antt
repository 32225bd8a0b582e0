-- ===== src/Driver.antt =====
-- include/porth/PorthDriver.hpp: the orchestration of registers, shuttle and watchdog. `size` is the template parameter
-- RingSize. The register block is a `Device`; Driver/Watchdog has the background thread.
pub mod Watchdog
pub mod Accounting
pub mod EndToEnd
pub mod Shutdown
pub mod ClosedLoop
pub mod Thread
use porth_core.Base.{
  ℕ, ◌+◌, ◌^◌, Bool, true, false, Option, none, some, List, [], ◌∷◌, ◌++◌, u64, if◌then◌else◌,
}
use porth_core.Resource.{Event}
use porth_core.Device.{Device}
use porth_core.Ring.{Ring, Descriptor, push, pop}
use porth_core.HugePage.{Os, Error}
use porth_core.Shuttle
use porth_core.Shuttle.{Shuttle, built_shuttle, failed}
use porth_core.Telemetry.{Stats}

-- include/porth/PorthUtil.hpp: `PorthStatus`
pub data Status : Type 0 where
  success busy empty full error_affinity error_priority error_hardware_timeout : Status

pub record Driver : Type 0 where
  pub shuttle : Shuttle
  pub run_watchdog : Bool
  pub watchdog_ready : Bool
  pub stats : Option Stats

pub data Outcome : Type 0 where
  built_driver : Driver → Device → Outcome
  null_registers : Outcome
  no_shuttle : Error → Outcome

-- The constructor, at the end of its handshake: it returns once the watchdog has set its ready flag.
unfoldable pub create : ℕ → Os → ℕ → Option Device → List Event × Outcome
create size os descriptors none = ([], null_registers)
create size os descriptors (some regs) =
    let (events, out) = Shuttle.create size os 0 descriptors in
    elim out [
      | failed e ↦ (events, no_shuttle e)
      | built_shuttle shuttle ↦ (
        events,
        built_driver
            (record { shuttle = shuttle; run_watchdog = true; watchdog_ready = true; stats = none })
            (record regs { data_ptr = Shuttle.get_device_addr shuttle }),
      )
    ]

-- The destructor: the pointer register is cleared and the watchdog stopped and joined before the shuttle's
-- memory goes.
unfoldable pub destroy : ℕ → Driver → Device → List Event × Driver × Device
destroy size d regs =
    let regs' : Device = record regs { data_ptr = 0 } in
    let d' : Driver = record d { run_watchdog = false } in
    (Shuttle.destroy size d.shuttle, d', regs')

unfoldable pub set_stats_link : Option Stats → Driver → Driver
set_stats_link stats d = record d { stats = stats }

-- The counters of a linked statistics block after a push that succeeded, or failed.
unfoldable pub count_sent : ℕ → Option Stats → Option Stats
count_sent len none = none
count_sent len (some s) = some (record s {
  total_packets = u64 (s.total_packets + 1);
  total_bytes = u64 (s.total_bytes + len);
})

unfoldable pub count_dropped : Option Stats → Option Stats
count_dropped none = none
count_dropped (some s) = some (record s { dropped_packets = u64 (s.dropped_packets + 1) })

-- `none` is a call through a null ring pointer.
unfoldable pub transmit : ℕ → Driver → Descriptor → Option (Status × Driver)
unfolding count_sent count_dropped
transmit size d desc = elim d.shuttle.ring [
  | none ↦ none
  | some ring ↦
      let (pushed, ring') = push size ring desc in
      let shuttle' : Shuttle = record (d.shuttle) { ring = some ring' } in
      if pushed
      then some (success, record d { shuttle = shuttle'; stats = count_sent desc.len d.stats })
      else some (full, record d { shuttle = shuttle'; stats = count_dropped d.stats })
]

-- The second component is what `out_desc` holds afterwards.
unfoldable pub receive : ℕ → Driver → Descriptor → Option (Status × Descriptor × Driver)
receive size d out_desc = elim d.shuttle.ring [
  | none ↦ none
  | some ring ↦
      let (popped, out, ring') = pop size ring out_desc in
      let shuttle' : Shuttle = record (d.shuttle) { ring = some ring' } in
      if popped
      then some (success, out, record d { shuttle = shuttle' })
      else some (empty, out, record d { shuttle = shuttle' })
]

-- A client's burst of `transmit` calls.
pub transmit_all : ℕ → Driver → List Descriptor → Option (List Status × Driver)
transmit_all size d [] = some ([], d)
transmit_all size d (x ∷ xs) = elim (transmit size d x) [
  | none ↦ none
  | some (status, d') ↦ elim (transmit_all size d' xs) [
    | none ↦ none
    | some (rest, last) ↦ some (status ∷ rest, last)
  ]
]
