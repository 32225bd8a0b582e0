-- ===== src/Tool/Args.antt =====
-- tools/porth-sim-ctl.cpp: how `main` tells its commands apart, and its exit code. `stoull` stands for std::stoull,
-- `none` where it throws.
use Prim.Native.String.{String}
use text.Mathlib.Text.{◌==◌}
use porth_core.Base.{ℕ, Bool, Option, none, some, List, [], ◌∷◌, if◌then◌else◌}

-- What `main` does with its arguments: the usage for too few of them, the usage for others that name no
-- command, a command, or an exception of std::stoull.
pub data Job : Type 0 where
  too_few usage bad_delay : Job
  launch : (name : String) (delay : ℕ) → Job
  stress monitor : (name : String) → Job

module _ (stoull : String → Option ℕ) where
  -- The commands with their count of arguments, in the order of the tests.
  unfoldable pub parse : List String → Job
  parse (_ ∷ cmd ∷ name ∷ []) =
      if cmd == "stress" then stress name else if cmd == "monitor" then monitor name else usage
  parse (_ ∷ cmd ∷ name ∷ delay ∷ []) =
      if cmd == "launch"
      then elim (stoull delay) [ none ↦ bad_delay | some d ↦ launch name d ]
      else usage
  parse (_ ∷ cmd ∷ _) = usage
  parse _ = too_few

  -- `main`'s exit code; `throws` is whether the handler of a command throws. A launch that does not throw
  -- does not return.
  unfoldable pub main_ : (Job → Bool) → List String → Option ℕ
  unfolding parse
  main_ throws argv = elim (parse argv) [
    | too_few ↦ some 1
    | usage ↦ some 0
    | bad_delay ↦ some 1
    | launch name delay ↦ if throws (launch name delay) then some 1 else none
    | stress name ↦ if throws (stress name) then some 1 else some 0
    | monitor name ↦ if throws (monitor name) then some 1 else some 0
  ]
