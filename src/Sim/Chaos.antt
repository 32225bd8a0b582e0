-- ===== src/Sim/Chaos.antt =====
-- The fault injection of `apply_chaos_effects` against the guards of `process_dma`.
use native.Mathlib.Nat.{pow-suc, one-le-pow}
use porth_core.Base.{
  ℕ, zero, suc, ◌%◌, ◌^◌, ◌≤◌, ◌<◌, ◌≡◌, ◌≢◌, inl, inr, refl, ap, ◌∙◌, arith, Bool, true, false,
  none, if◌then◌else◌, flip-ne, flip-zero, Bool-cases, Option-cases, dec_lt,
}
use porth_core.Ring.{blank}
use porth_core.Sim.{
  Sim, Rings, Draw, Dma, idle, wild, drained, drain, sim_default_shuttle_size, accepts, process_dma,
  update_thermal_model, apply_chaos_effects, physics_step, sim_chaos_threshold,
}
use porth_core.Sim.Drain.{accepts_iff}

-- Once an address is recorded and the pointer register has it, a fault that chaos injects there, whatever
-- the bit, makes a pointer that the next `process_dma` refuses; it then changes nothing.
pub corrupted_refused :
    (rings : Rings) (d : Draw) (s : Sim)
    → s.last_valid_shuttle ≢ 0
    → s.dev.data_ptr ≡ s.last_valid_shuttle
    → s.corrupt_status ≡ true
    → sim_chaos_threshold < d.choice
    → let t = apply_chaos_effects d s in process_dma rings t ≡ (t, idle)
unfolding apply_chaos_effects process_dma accepts
corrupted_refused rings d s k e c h = ground (arith, flip-ne d.bit s.dev.data_ptr)

pow-aligned : (b : ℕ) → 6 ≤ b → 2 ^ b % 64 ≡ 0
pow-aligned zero h = absurd (omega arith)
pow-aligned (suc b) h = elim (dec_lt b 6) [
  | yes p ↦ let e : suc b ≡ 6 = omega arith in rw e
  | no p ↦ omega (arith, pow-suc 2 b, pow-aligned b (omega arith))
]

-- What `process_dma` does at an accepted address where no ring stands, with none recorded.
process_dma-wild :
    (rings : Rings) (s : Sim)
    → accepts s ≡ true
    → s.last_valid_shuttle ≡ 0
    → rings s.dev.data_ptr ≡ none
    → process_dma rings s ≡ (record s { last_valid_shuttle = s.dev.data_ptr }, wild s.dev.data_ptr)
unfolding process_dma
process_dma-wild rings s ok k r = ground arith

flipped :
    (d : Draw) (s : Sim)
    → s.dev.data_ptr ≡ 0
    → s.corrupt_status ≡ true
    → sim_chaos_threshold < d.choice
    → apply_chaos_effects d s ≡ record s { dev = record (s.dev) { data_ptr = 2 ^ d.bit } }
unfolding apply_chaos_effects
flipped d s e c h = ground (arith, flip-zero d.bit)

-- Before an address is recorded the guards give no protection: with the pointer register 0, a fault in
-- any bit from number 6 on makes a pointer that they accept, and the next `process_dma` reads at 2^bit,
-- where no ring stands, and records that address.
pub unarmed_wild :
    (rings : Rings) (d : Draw) (s : Sim)
    → s.dev.data_ptr ≡ 0
    → s.last_valid_shuttle ≡ 0
    → s.corrupt_status ≡ true
    → sim_chaos_threshold < d.choice
    → 6 ≤ d.bit
    → rings (2 ^ d.bit) ≡ none
    → let (t, dma) = process_dma rings (apply_chaos_effects d s) in
      (dma ≡ wild (2 ^ d.bit)) × (t.last_valid_shuttle ≡ 2 ^ d.bit)
unfolding process_dma
unarmed_wild rings d s e k c h b r =
    let t : Sim = record s { dev = record (s.dev) { data_ptr = 2 ^ d.bit } } in
    let ok =
      (accepts_iff t).1
        (λ z. omega (arith, one-le-pow d.bit 2 (omega arith)), pow-aligned d.bit b, inl k) in
    let run = ap (process_dma rings) (flipped d s e c h) ∙ process_dma-wild rings t ok k r in
    (ap (λ p. p.1) run, ap (λ p. p.0.last_valid_shuttle) run)

-- The address that a round reads at, if any, is `x`.
abbrev pub ReadsAt : ℕ → Dma → Type 0
ReadsAt x idle = Unit
ReadsAt x (wild addr) = addr ≡ x
ReadsAt x (drained addr ring taken) = addr ≡ x

process_dma-locked :
    (rings : Rings) (s : Sim)
    → s.last_valid_shuttle ≢ 0
    → let (t, dma) = process_dma rings s in
      (t.last_valid_shuttle ≡ s.last_valid_shuttle) × ReadsAt s.last_valid_shuttle dma
unfolding process_dma
process_dma-locked rings s k = elim (Bool-cases (accepts s)) [
  | inr refused ↦ rw refused (refl, tt)
  | inl ok ↦ elim (Option-cases (rings s.dev.data_ptr)) [
    | inl e ↦ rw (ok, e) (ground arith, ground (arith, (accepts_iff s).0 ok))
    | inr (ring, e) ↦ elim (Option-cases (drain sim_default_shuttle_size ring blank s.dev)) [
      | inl f ↦ rw (ok, e, f) (ground arith, tt)
      | inr (out, f) ↦ rw (ok, e, f) (ground arith, ground (arith, (accepts_iff s).0 ok))
    ]
  ]
]

later-keeps :
    (d : Draw) (s : Sim)
    → (apply_chaos_effects d (update_thermal_model s)).last_valid_shuttle ≡ s.last_valid_shuttle
unfolding apply_chaos_effects update_thermal_model
later-keeps d s = ground arith

abbrev Locked : ℕ → Sim × Dma → Type 0
Locked x p = (p.0.last_valid_shuttle ≡ x) × ReadsAt x p.1

if-Locked :
    (x : ℕ) (b : Bool) (p q : Sim × Dma) → Locked x p → Locked x q → Locked x (if b then p else q)
if-Locked x true p q h k = h
if-Locked x false p q h k = k

-- Once an address is recorded, no round of the loop changes it, and no round reads by DMA anywhere else,
-- whatever stands in the pointer register and whatever chaos draws.
pub physics_step-locked :
    (rings : Rings) (d : Draw) (s : Sim)
    → s.last_valid_shuttle ≢ 0
    → let (t, dma) = physics_step rings d s in
      (t.last_valid_shuttle ≡ s.last_valid_shuttle) × ReadsAt s.last_valid_shuttle dma
unfolding physics_step
physics_step-locked rings d s k =
    let s' : Sim = record s { dev = record (s.dev) { status = 1 } } in
    let (kept, reads) = process_dma-locked rings s' k in
    if-Locked s.last_valid_shuttle s.inject_deadlock (s', idle) (_, _) (refl, tt)
      (later-keeps d (process_dma rings s').0 ∙ kept, reads)
