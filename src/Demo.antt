-- ===== src/Demo.antt =====
-- examples/porth_full_demo.cpp: the measuring loop and the handshake of the demonstration, over the driver, the XDP
-- portal and the metrics. The statistics block is the one that is linked to the driver.
pub mod Count
pub mod Samples
pub mod Start
pub mod Kept
pub mod Main
use porth_core.Base.{
  ℕ, zero, suc, ◌+◌, ◌%◌, Bool, true, false, not, ◌&&◌, Option, none, some, List, [], ◌∷◌, ltb,
  ◌==◌, if◌then◌else◌,
}
use porth_core.Ring.{Ring, Descriptor, blank, pop}
use porth_core.Shuttle.{Shuttle}
use porth_core.Telemetry.{Stats}
use porth_core.Metric.{Metric, record_sample}
use porth_core.Driver.{Driver, Status, success, transmit}
use porth_core.Xdp.{Portal, Nic, bridge_to_shuttle}

abbrev pub iterations : ℕ
iterations = 50000

abbrev pub log_interval : ℕ
log_interval = 10000

abbrev pub handshake_timeout_ms : ℕ
handshake_timeout_ms = 5000000

abbrev pub test_packet : Descriptor
test_packet = record { addr = 0x1000; len = 64 }

-- What one iteration meets: the descriptors that the device takes off the ring before the bridge, and between the
-- bridge and the transmit; the network card; `t2 - t1`; and the temperature register.
pub record Cycle : Type 0 where
  pub taken_first : ℕ
  pub nic : Nic
  pub taken_then : ℕ
  pub elapsed : ℕ
  pub temp : ℕ

-- The device takes up to `n` descriptors.
pub take_off : ℕ → ℕ → Ring → Ring
take_off size zero r = r
take_off size (suc n) r = take_off size n (pop size r blank).2

abbrev pub with_ring : Ring → Option Stats → Driver → Driver
with_ring r stats d = record d { shuttle = record (d.shuttle) { ring = some r }; stats = stats }

-- The bridge and what the device takes around it; `none` is a null ring pointer.
unfoldable pub bridge : ℕ → Portal → Cycle → Driver → Option Driver
unfolding take_off
bridge size p c d = elim d.shuttle.ring [
  | none ↦ none
  | some r ↦
      let (effects, r', stats) =
        bridge_to_shuttle size p c.nic (take_off size c.taken_first r) d.stats in
      some (with_ring (take_off size c.taken_then r') stats d)
]

-- The temperatures of the statistics block, of every `log_interval`-th iteration.
unfoldable pub sample_temp : ℕ → ℕ → Option Stats → Option Stats
sample_temp i temp none = none
sample_temp i temp (some s) =
    if i % log_interval == 0
    then some (record s {
      max_temp_mc = if ltb s.max_temp_mc temp then temp else s.max_temp_mc;
      current_temp_mc = temp;
    })
    else some s

abbrev pub is_success : Status → Bool
is_success success = true
is_success _ = false

-- One iteration; with whether the loop goes on.
unfoldable pub cycle : ℕ → Portal → ℕ → Cycle → Driver → Metric → Option (Bool × Driver × Metric)
unfolding bridge sample_temp
cycle size p i c d m = elim (bridge size p c d) [
  | none ↦ none
  | some d' ↦ elim (transmit size d' test_packet) [
    | none ↦ none
    | some (status, d'') ↦
        if is_success status
        then some
            (true, record d'' { stats = sample_temp i c.temp d''.stats }, record_sample c.elapsed m)
        else some (false, d'', m)
  ]
]

-- `run_telemetry_stress_test` from iteration `i` with `left` to go (all are `iterations`), over what its iterations
-- meet; with the number of transmits, and of those that succeeded.
unfoldable pub run_telemetry_stress_test :
    ℕ → Portal → ℕ → ℕ → List Cycle → Driver → Metric → Option (ℕ × ℕ × Driver × Metric)
run_telemetry_stress_test size p zero i cs d m = some (0, 0, d, m)
run_telemetry_stress_test size p (suc left) i [] d m = some (0, 0, d, m)
run_telemetry_stress_test size p (suc left) i (c ∷ cs) d m = elim (cycle size p i c d m) [
  | none ↦ none
  | some (goes_on, d', m') ↦
      let rest = run_telemetry_stress_test size p left (i + 1) cs d' m' in
      if goes_on
      then elim rest [
        | none ↦ none
        | some (tries, sent, last, m'') ↦ some (suc tries, suc sent, last, m'')
      ]
      else some (1, 0, d', m')
]

-- `run_telemetry_parking`, over the temperatures of its rounds.
unfoldable pub run_telemetry_parking : List ℕ → Stats → Stats
run_telemetry_parking [] s = s
run_telemetry_parking (t ∷ ts) s = run_telemetry_parking ts (record s { current_temp_mc = t })

-- The handshake of `main`, from a count of `timeout_ms` with `left` to the limit: `status n` is what the n-th load
-- of the status register reads. The number of loads, and whether the load behind the loop finds the
-- chip ready; if not, `main` throws.
unfoldable pub handshake : (ℕ → ℕ) → ℕ → ℕ → ℕ × Bool
handshake status zero n = (n + 2, not (status (n + 1) == 0))
handshake status (suc left) n =
    let rest = handshake status left (n + 1) in
    if status n == 0 then rest else (n + 2, not (status (n + 1) == 0))
