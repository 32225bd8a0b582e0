-- ===== src/Handshake/Race.antt =====
-- What the client of the handshake reads, from an invariant of the two threads.
use porth_core.Base.{ℕ, ◌+◌, ◌≡◌, ◌≢◌, ◌⊎◌, refl, arith, u64}
use porth_core.Device.{Device}
use porth_core.Handshake.{
  ctrl_idle, ctrl_start, status_ready, Chip, polling, begun, working, committing, signalling,
  clearing, powered_down, Client, starting, spinning, sampling, resetting, joining, finished,
  System, Step, sees_start, sees_reset, sees_other, write_busy, load_counter, write_counter,
  write_ready, write_idle, write_start, sees_ready, sees_unready, sample, write_reset, join, Reach,
  start, later, powered_on,
}

-- What the registers hold once the chip has done its work.
abbrev pub Done : ℕ → Device → Type 0
Done c r = (r.counter ≡ u64 (c + 1)) × (r.status ≡ status_ready)

-- What the registers hold by where the two threads stand, over the counter's value at the beginning; `⊥`
-- where they cannot stand together.
abbrev pub Agrees : ℕ → Device → Client → Chip → Type 0
Agrees c r starting polling = (r.control ≡ ctrl_idle) × (r.counter ≡ c) × (r.status ≡ 0)
Agrees c r starting _ = ⊥
Agrees c r spinning polling =
    ((r.control ≡ ctrl_start) × (r.counter ≡ c) × (r.status ≢ status_ready))
    ⊎ ((r.control ≡ ctrl_idle) × Done c r)
Agrees c r spinning begun = (r.counter ≡ c) × (r.status ≢ status_ready)
Agrees c r spinning working = (r.counter ≡ c) × (r.status ≢ status_ready)
Agrees c r spinning (committing n) = (n ≡ c) × (r.status ≢ status_ready)
Agrees c r spinning signalling = (r.counter ≡ u64 (c + 1)) × (r.status ≢ status_ready)
Agrees c r spinning clearing = Done c r
Agrees c r spinning powered_down = ⊥
Agrees c r sampling polling = (r.control ≡ ctrl_idle) × Done c r
Agrees c r sampling clearing = Done c r
Agrees c r sampling _ = ⊥
Agrees c r (resetting n) polling = (n ≡ r.counter) × (r.control ≡ ctrl_idle) × Done c r
Agrees c r (resetting n) clearing = (n ≡ r.counter) × Done c r
Agrees c r (resetting n) _ = ⊥
Agrees c r (joining n) polling = (n ≡ r.counter) × (r.control ≢ ctrl_start) × Done c r
Agrees c r (joining n) clearing = (n ≡ r.counter) × Done c r
Agrees c r (joining n) powered_down = (n ≡ r.counter) × Done c r
Agrees c r (joining n) _ = ⊥
Agrees c r (finished n) powered_down = (n ≡ r.counter) × Done c r
Agrees c r (finished n) _ = ⊥

pub record Inv (c : ℕ) (s : System) : Type 0 where
  pub agrees : Agrees c s.regs s.client s.chip

Step-Inv : {c : ℕ} {s t : System} → Step s t → Inv c s → Inv c t
Step-Inv (sees_start s e f) v = ground arith
Step-Inv (sees_reset s e f) v = ground arith
Step-Inv (sees_other s e f g) v = v
Step-Inv (write_busy s e) v = ground arith
Step-Inv (load_counter s e) v = ground arith
Step-Inv (write_counter s n e) v = ground arith
Step-Inv (write_ready s e) v = ground arith
Step-Inv (write_idle s e) v = ground arith
Step-Inv (write_start s e) v = ground arith
Step-Inv (sees_ready s e f) v = ground arith
Step-Inv (sees_unready s e f) v = v
Step-Inv (sample s e) v = ground arith
Step-Inv (write_reset s n e) v = ground arith
Step-Inv (join s n e f) v = ground arith

pub Reach-Inv : {c : ℕ} {fresh s : System} → Inv c fresh → Reach fresh s → Inv c s
Reach-Inv v start = v
Reach-Inv v (later r st) = Step-Inv st (Reach-Inv v r)

pub powered_on-Inv : (regs : Device) → Inv regs.counter (powered_on regs)
powered_on-Inv regs = record { agrees = (refl, refl, refl) }

-- Whatever way the two threads interleave: a client that comes through the exchange has read, and leaves in
-- the counter register, one more (modulo 2^64) than the counter held at the beginning, and the chip is
-- powered down.
pub finishes_right :
    (regs : Device) {s : System} (result : ℕ)
    → Reach (powered_on regs) s
    → s.client ≡ finished result
    → (result ≡ u64 (regs.counter + 1)) × (s.regs.counter ≡ result) × (s.chip ≡ powered_down)
finishes_right regs result r e = ground (arith, Reach-Inv (powered_on-Inv regs) r, e)
