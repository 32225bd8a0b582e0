-- ===== src/Demo/Main/Measures.antt =====
-- How the demonstration ends: what it gives back from the hub to the end of the block of `try`, and what it has measured.
use porth_core.Base.{
  ℕ, suc, ◌+◌, ◌≤◌, ◌≡◌, ◌≢◌, ◌⊎◌, refl, ap, ◌∙◌, arith, true, Option, some, List, [], ◌∷◌, ◌++◌,
  inl, inr, length, take, length-take, u64,
}
use porth_core.Device.{Device}
use porth_core.Resource.{Resource, Event, settle}
use porth_core.HugePage.{mlock_failed}
use porth_core.Ring.{Ring}
use porth_core.Ring.Inv.{IsValid}
use porth_core.Shuttle
use porth_core.Telemetry.{Stats, fresh_stats}
use porth_core.Telemetry.Hub
use porth_core.Metric.{new_metric, recorded}
use porth_core.Metric.Samples.{record_all-fresh}
use porth_core.Sim.Drain.{shuttle-IsSize}
use porth_core.Driver.{Driver, set_stats_link}
use porth_core.Xdp.{Portal}
use porth_core.Demo.{iterations, run_telemetry_parking}
use porth_core.Demo.Count.{tally}
use porth_core.Demo.Samples.{arrived, times, run_telemetry_stress_test-Ran}
use porth_core.Demo.Kept.{run-frees}
use porth_core.Demo.Main.{
  World, Ending, no_backend, no_driver, no_portal, no_hub, completed, measured, shuttle_size,
}

-- What is still held at the end, by how it came: at most the descriptors of a VFIO constructor that threw, or the one
-- buffer that a failed mlock leaves.
abbrev pub Leaves : Ending → List Resource → Type 0
Leaves no_backend held = length held ≤ 3
Leaves (no_driver mlock_failed) held = length held ≡ 1
Leaves how held = held ≡ []

-- What a completed run has measured: of its transmits all but at most the last went through; the metric has exactly
-- their times, in order; and every packet and every transmit is counted once, modulo 2^64.
abbrev pub Measured : World → Ending → Type 0
Measured w (completed tries sent stats metric) =
    ((tries ≡ sent) ⊎ (tries ≡ suc sent))
    × (recorded metric ≡ take sent (times w.cycles))
    × (tally stats ≡ u64 (arrived (take tries w.cycles) + tries))
Measured w _ = Unit

-- What is in the registers at the end, of what `main` wrote: once there was a driver, its pointer is gone; and once
-- there was a portal, the chip is commanded to run.
abbrev pub left_by : Ending → Device → Device
left_by no_backend regs = regs
left_by (no_driver e) regs = regs
left_by no_portal regs = record regs { data_ptr = 0 }
left_by how regs = record regs { control = 1; data_ptr = 0 }

-- A hub whose mapping succeeds.
Hub-cases :
    (os : Hub.Os) {p : ℕ} (x : List Event × Hub.Outcome)
    → os.mmap ≡ some p
    → Hub.Closed os x
    → ((e : Hub.Error) × (x.1 ≡ Hub.thrown e) × (settle x.0 [] ≡ some []))
      ⊎ ((h : Hub.TelemetryHub) × (stores : Option ℕ) × (x.1 ≡ Hub.built_hub h stores)
          × (settle (x.0 ++ (Hub.destroy h).0) [] ≡ some []))
Hub-cases os (es, Hub.thrown e) mapped c = inl (e, refl, c)
Hub-cases os (es, Hub.built_hub h stores) mapped c =
    inr (h, stores, refl, ground (arith, c.1, mapped))

parking-tally : (ts : List ℕ) (s : Stats) → tally (run_telemetry_parking ts s) ≡ tally s
unfolding run_telemetry_parking
parking-tally [] s = refl
parking-tally (t ∷ ts) s = parking-tally ts (record s { current_temp_mc = t })

take_fits : (n : ℕ) {k : ℕ} (xs : List ℕ) → n ≤ k → length (take n xs) ≤ k
take_fits n xs h = omega (arith, length-take n xs, h)

-- How a part that ran to `how` with the driver `last` stands to the driver that it began with.
pub record Ran (w : World) (d : Driver) (Out : List Event → Ending → Driver → Type 0) : Type 0 where
  pub events : List Event
  pub how : Ending
  pub last : Driver
  pub result : Out events how last
  pub settled : settle events [] ≡ some []
  pub frees : Shuttle.destroy shuttle_size last.shuttle ≡ Shuttle.destroy shuttle_size d.shuttle
  pub leaves : Leaves how []
  pub right : Measured w how

pub measured-Ran :
    (w : World) (d : Driver) (p : Portal) (r : Ring) (q : ℕ)
    → d.shuttle.ring ≡ some r
    → IsValid shuttle_size r
    → w.hub.mmap ≡ some q
    → q ≢ 0
    → (ran : Ran w d (λ events how last. measured w d p ≡ some (events, how, last)))
      × ((regs : Device) → left_by ran.how regs ≡ record regs { control = 1; data_ptr = 0 })
unfolding measured set_stats_link
measured-Ran w d p r q stands valid mapped some_page =
    elim (Hub-cases w.hub (Hub.create w.hub true) mapped
      (Hub.create-Closed w.hub true (λ e. some_page (ground (arith, mapped, e))))) [
        | inl (e, f, s) ↦ (
          record {
            events = (Hub.create w.hub true).0;
            how = no_hub;
            last = d;
            result = ground (arith, f);
            settled = s;
            frees = refl;
            leaves = refl;
            right = tt;
          },
          λ regs. refl,
        )
        | inr (h, stores, f, s) ↦
            let linked : Driver = record d { stats = some fresh_stats } in
            let ran =
              run_telemetry_stress_test-Ran {size = shuttle_size} p iterations 0 w.cycles {r = r}
                {s = fresh_stats} {d = linked} (new_metric iterations) shuttle-IsSize
                (record { ring = stands; stats = refl; valid = valid }) (omega arith) in
            (
              record {
                events = (Hub.create w.hub true).0 ++ (Hub.destroy h).0;
                how =
                    completed ran.tries ran.sent (run_telemetry_parking w.parked ran.after)
                      ran.metric;
                last = ran.last;
                result = ground (arith, f, mapped, ran.result, ran.linked.stats);
                settled = s;
                frees =
                    run-frees shuttle_size p iterations 0 w.cycles linked (new_metric iterations)
                      ran.result;
                leaves = refl;
                right = (
                  ran.failed,
                  ap recorded ran.samples
                      ∙ record_all-fresh (take ran.sent (times w.cycles)) iterations (
                          take_fits ran.sent (times w.cycles)
                            (ground (arith, ran.bound, ran.failed))),
                  omega (arith, parking-tally w.parked ran.after, ran.counted),
                );
              },
              λ regs. refl,
            )
      ]
