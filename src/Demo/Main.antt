-- ===== src/Demo/Main.antt =====
-- examples/porth_full_demo.cpp: `main`, from the choice of the back-end to the last destructor. The results of the system
-- calls and of libxdp are in `World`; pinning and priority are tried and ignored.
pub mod Parts
pub mod Measures
pub mod Ends
use porth_core.Base.{
  ℕ, zero, Bool, true, false, Option, none, some, List, [], ◌∷◌, ◌++◌, if◌then◌else◌, ◌==◌,
}
use porth_core.Resource.{Event}
use porth_core.Device.{Device, expected_layout_size}
use porth_core.HugePage
use porth_core.Telemetry.{Stats, fresh_stats}
use porth_core.Telemetry.Hub
use porth_core.Vfio
use porth_core.Vfio.{VfioDevice}
use porth_core.Mock
use porth_core.Mock.{MockDevice}
use porth_core.Shuttle.{Shuttle}
use porth_core.Driver
use porth_core.Driver.{Driver, set_stats_link}
use porth_core.Xdp.{Portal, bind_shuttle_memory}
use porth_core.Xdp.Lifecycle.{
  new_portal, Opened, opened, open_portal, close, handed, umem_of, socket_of,
}
use porth_core.Metric.{Metric, new_metric}
use porth_core.Demo.{
  Cycle, iterations, handshake_timeout_ms, run_telemetry_stress_test, run_telemetry_parking,
  handshake,
}

-- `shuttle_size`
abbrev pub shuttle_size : ℕ
shuttle_size = 1024

-- What `main` meets: whether it has an argument; the calls of the back-ends, of the shuttle, of the portal and of the
-- hub; the registers that the back-end maps; what the loads of the status register read; and what its loops meet.
pub record World : Type 0 where
  pub has_argument : Bool
  pub vfio : Vfio.Os
  pub shm : Mock.Os
  pub regs : Device
  pub pages : HugePage.Os
  pub descriptors : ℕ
  pub umem : Option ℕ
  pub xsk : Option ℕ
  pub xsk_fd : Option ℕ
  pub status : ℕ → ℕ
  pub hub : Hub.Os
  pub cycles : List Cycle
  pub parked : List ℕ

-- `physical_hw` or `sim`.
pub data Backend : Type 0 where
  physical : VfioDevice → Backend
  simulated : MockDevice → Backend

-- How it ends: by the exception of a constructor, of the portal or of the handshake, or after both loops.
pub data Ending : Type 0 where
  no_backend : Ending
  no_driver : HugePage.Error → Ending
  no_portal : Ending
  not_ready : Ending
  no_hub : Ending
  completed : (tries sent : ℕ) (stats : Stats) (metric : Metric) → Ending

-- The constructor of the back-end; `none` where it throws. The digital twin is constructed as the owner of its name; its
-- thread and its log are no resources here.
unfoldable pub open_backend : World → List Event × Option Backend
open_backend w =
    if w.has_argument
    then (let (events, out) = Vfio.create w.vfio in
        elim out [ Vfio.thrown e ↦ (events, none) | Vfio.built d ↦ (events, some (physical d)) ])
    else (let (trace, out) = Mock.create expected_layout_size w.shm true false in
        elim out [
          | Mock.thrown e ↦ (trace.events, none)
          | Mock.built d ↦ (trace.events, some (simulated d))
        ])

-- The destructor.
unfoldable pub close_backend : Backend → List Event
close_backend (physical d) = Vfio.destroy d
close_backend (simulated d) = (Mock.destroy expected_layout_size d true).events

-- `bind_shuttle_memory` and `open_portal`: what libxdp hands out, whether none of them throws, and the portal.
unfoldable pub set_up_portal : World → Shuttle → List Event × Bool × Portal
set_up_portal w shuttle =
    let (bound, p) = bind_shuttle_memory shuttle w.umem new_portal in
    if bound
    then (let (how, p') = open_portal w.xsk w.xsk_fd p in
        (
          handed umem_of w.umem ++ handed socket_of w.xsk,
          elim how [ opened ↦ true | _ ↦ false ],
          p',
        ))
    else ([], false, p)

-- From the metric to the end of the block of `try`: the hub, the loops, and the hub's destructor, with the driver as the
-- loops leave it. `none` is a store through the hub's failed mapping, or a call through a null ring pointer.
unfoldable pub measured : World → Driver → Portal → Option (List Event × Ending × Driver)
measured w driver p =
    let (events, out) = Hub.create w.hub true in
    elim out [
      | Hub.thrown e ↦ some (events, no_hub, driver)
      | Hub.built_hub hub stores ↦ elim w.hub.mmap [
        | none ↦ none
        | some _ ↦
            let run =
              run_telemetry_stress_test shuttle_size p iterations 0 w.cycles
                (set_stats_link (some fresh_stats) driver) (new_metric iterations) in
            elim run [
              | none ↦ none
              | some (tries, sent, last, metric) ↦ elim last.stats [
                | none ↦ none
                | some stats ↦ some (
                  events ++ (Hub.destroy hub).0,
                  completed tries sent (run_telemetry_parking w.parked stats) metric,
                  last,
                )
              ]
            ]
      ]
    ]

-- From the portal on, with the registers as `main` itself writes them; the device and the watchdog write theirs.
unfoldable pub with_driver :
    World → Driver → Device → Option (List Event × Ending × Driver × Device)
unfolding measured set_up_portal
with_driver w driver regs =
    let (events, ok, p) = set_up_portal w driver.shuttle in
    let started : Device = record regs { control = 1 } in
    if ok
    then (if (handshake w.status handshake_timeout_ms 0).1
        then elim (measured w driver p) [
          | none ↦ none
          | some (inner, how, last) ↦ some (events ++ (inner ++ close p), how, last, started)
        ]
        else some (events ++ ([] ++ close p), not_ready, driver, started))
    else some (events ++ ([] ++ close p), no_portal, driver, regs)

-- From the driver on. The registers of a back-end that was built are there.
unfoldable pub with_backend : World → Option (List Event × Ending × Device)
unfolding with_driver
with_backend w =
    let (events, out) = Driver.create shuttle_size w.pages w.descriptors (some w.regs) in
    elim out [
      | Driver.null_registers ↦ none
      | Driver.no_shuttle e ↦ some (events, no_driver e, w.regs)
      | Driver.built_driver driver regs ↦ elim (with_driver w driver regs) [
        | none ↦ none
        | some (inner, how, last, regs') ↦
            let (freed, _, left) = Driver.destroy shuttle_size last regs' in
            some (events ++ (inner ++ freed), how, left)
      ]
    ]

abbrev pub exit_code : Ending → ℕ
exit_code (completed tries sent stats metric) = 0
exit_code _ = 1

-- `main`: its exit code, what was acquired and released, how it ended, and what its writes leave in the registers.
unfoldable pub main : World → Option (ℕ × List Event × Ending × Device)
unfolding open_backend close_backend with_backend
main w =
    let (events, backend) = open_backend w in
    elim backend [
      | none ↦ some (1, events, no_backend, w.regs)
      | some b ↦ elim (with_backend w) [
        | none ↦ none
        | some (inner, how, regs) ↦
            some (exit_code how, events ++ (inner ++ close_backend b), how, regs)
      ]
    ]
