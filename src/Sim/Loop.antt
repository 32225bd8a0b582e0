-- ===== src/Sim/Loop.antt =====
-- Whole runs of `run_physics_loop`: what each round keeps, all rounds keep.
use mathlib.Core.Path.{subst}
use porth_core.Base.{All, ◌≡◌, ◌≢◌, refl, ◌∙◌, sym, Bool, true, false, List, [], ◌∷◌, if◌then◌else◌}
use porth_core.Sim.{Sim, Rings, Draw, Turn, Dma, physics_step, run_physics_loop}
use porth_core.Sim.Lattice.{InRange, physics_step-InRange}
use porth_core.Sim.Chaos.{ReadsAt, physics_step-locked}

-- What every round keeps of the state, and shows of its DMA, every run does.
module _ (P : Sim → Type 0) (Q : Dma → Type 0)
    (step : (memory : Rings) (draw : Draw) (s : Sim)
      → P s
      → P (physics_step memory draw s).0 × Q (physics_step memory draw s).1) where
  if-keeps :
      (b : Bool) (x y : List Dma × Sim)
      → P x.1 × All Q x.0
      → P y.1 × All Q y.0
      → P (if b then x else y).1 × All Q (if b then x else y).0
  if-keeps true x y p q = p
  if-keeps false x y p q = q

  pub run-keeps :
      (xs : List Turn) (s : Sim)
      → P s
      → P (run_physics_loop xs s).1 × All Q (run_physics_loop xs s).0
  unfolding run_physics_loop
  run-keeps [] s p = (p, tt)
  run-keeps (x ∷ xs) s p =
      let (p', q) = step x.memory x.draw s p in
      let (last, qs) = run-keeps xs (physics_step x.memory x.draw s).0 p' in
      if-keeps s.run_sim
        (
          (physics_step x.memory x.draw s).1
              ∷ (run_physics_loop xs (physics_step x.memory x.draw s).0).0,
          (run_physics_loop xs (physics_step x.memory x.draw s).0).1,
        )
        ([], s) (last, (q, qs)) (p, tt)

-- Whatever memory and draws its rounds meet, the loop never leaves the ranges.
pub run_physics_loop-InRange :
    (xs : List Turn) (s : Sim) → InRange s → InRange (run_physics_loop xs s).1
run_physics_loop-InRange xs s v =
    (run-keeps InRange (λ _. Unit) (λ m d t w. (physics_step-InRange m d t w, tt)) xs s v).0

-- Once an address is recorded, a run of the loop keeps it recorded and reads by DMA nowhere else, whatever
-- its rounds find in memory and in the draws of chaos.
pub run_physics_loop-locked :
    (xs : List Turn) (s : Sim)
    → s.last_valid_shuttle ≢ 0
    → ((run_physics_loop xs s).1.last_valid_shuttle ≡ s.last_valid_shuttle)
      × All (ReadsAt s.last_valid_shuttle) (run_physics_loop xs s).0
run_physics_loop-locked xs s k =
    run-keeps (λ t. t.last_valid_shuttle ≡ s.last_valid_shuttle) (ReadsAt s.last_valid_shuttle)
      (λ m d t e.
        let (kept, reads) = physics_step-locked m d t (λ z. k (sym e ∙ z)) in
        (kept ∙ e, subst (λ x. ReadsAt x (physics_step m d t).1) e reads))
      xs s refl
