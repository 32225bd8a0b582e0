-- ===== src/Tool/Chaos.antt =====
-- tools/porth-chaos.cpp: the faults that are injected into the registers from outside. What shm_open and mmap return
-- (`none` for -1 and MAP_FAILED) and the number that the user types are arguments.
use porth_core.Base.{
  ℕ, ◌≡◌, refl, arith, true, Option, none, some, List, [], ◌∷◌, ◌==◌, if◌then◌else◌,
}
use porth_core.Resource.{Resource, Event, acquire, release, settle, mapping, file, same_self}
use porth_core.Device.{Device}
use porth_core.Sim.{Sim, update_thermal_model}
use porth_core.Sim.Power.{next_voltage-same}
use porth_core.Driver.{Driver}
use porth_core.Driver.Watchdog.{watchdog_loop, watch}

-- No device; a write through MAP_FAILED, which is not checked; or the fault, with the ledger.
pub data Outcome : Type 0 where
  no_device wild : Outcome
  injected : List Event → Device → Outcome

unfoldable pub inject : ℕ → Device → Device
inject choice regs =
    if choice == 1 then record regs { laser_temp = 50000 } else record regs { control = 0 }

-- `main`; `bytes` is the size of the layout.
unfoldable pub chaos : ℕ → Option ℕ → Option ℕ → ℕ → Device → Outcome
unfolding inject
chaos bytes shm_open mmap choice regs = elim shm_open [
  | none ↦ no_device
  | some n ↦ elim mmap [
    | none ↦ wild
    | some p ↦
        let fd : Resource = record { kind = file; handle = n; size = 0 } in
        let region : Resource = record { kind = mapping; handle = p; size = bytes } in
        injected (acquire fd ∷ acquire region ∷ release region ∷ release fd ∷ [])
          (inject choice regs)
  ]
]

-- What is mapped is given back.
pub chaos-settles :
    (bytes n p choice : ℕ) (regs : Device)
    → (es : List Event) × (chaos bytes (some n) (some p) choice regs
        ≡ injected es (inject choice regs))
      × (settle es [] ≡ some [])
unfolding chaos
chaos-settles bytes n p choice regs =
    (_, refl, ground (arith, same_self (record { kind = file; handle = n; size = 0 })))

-- A thermal spike against the two threads: a round of the watchdog that reads it trips; a round of the device's
-- model that comes first leaves everything as if there had been no spike.
pub inject-watchdog_loop :
    (s : Sim) (d : Driver)
    → let spiked : Device = inject 1 s.dev in
      ((watchdog_loop (some spiked) d (record { run = true; temp = spiked.laser_temp } ∷ [])).1
        ≡ some (record spiked { control = 0 }))
      × (update_thermal_model (record s { dev = spiked }) ≡ update_thermal_model s)
unfolding inject watchdog_loop watch update_thermal_model
inject-watchdog_loop s d =
    let same = next_voltage-same (record (s.dev) { laser_temp = 50000 }) s.dev refl refl in
    (refl, rw same refl)
