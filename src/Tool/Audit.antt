-- ===== src/Tool/Audit.antt =====
-- tools/porth-check-env.cpp: the audit of the machine. What the calls on paths and files return is an argument.
use Prim.Native.String.{String}
use text.Mathlib.Text.{◌==◌}
use porth_core.Base.{
  ℕ, All, ◌≡◌, refl, arith, not, ◌&&◌, Bool, true, false, Option, none, some, List, [], ◌∷◌, ◌↔◌,
  Bool-cases, inl, inr, if◌then◌else◌,
}
use porth_core.Base.{◌==◌ as ◌==ℕ◌}
use porth_core.Driver.Thread.{set_realtime_priority}

-- An entry of the directory of the CPUs: whether `path.find` finds "cpu" in its path, whether the path ends in a digit,
-- and what is read of its governor's file (`none` where there is no such file).
pub record Entry : Type 0 where
  pub names_cpu : Bool
  pub digit_last : Bool
  pub governor : Option String

-- Whether the entry clears `all_performance`.
unfoldable pub clears : Entry → Bool
clears e =
    if e.names_cpu && e.digit_last
    then elim e.governor [ none ↦ false | some gov ↦ not (gov == "performance") ]
    else false

-- The loop, with `all_performance`.
all_performance : Bool → List Entry → Bool
all_performance flag [] = flag
all_performance flag (e ∷ es) = all_performance (if clears e then false else flag) es

unfoldable check_cpu_governor : List Entry → Bool
unfolding all_performance
check_cpu_governor es = all_performance true es

-- The number in /sys/kernel/realtime, if there is such a file.
unfoldable check_rt_kernel : Option ℕ → Bool
check_rt_kernel none = false
check_rt_kernel (some val) = val ==ℕ 1

-- What `main` reports, in its order; it returns 0 in any case.
pub record Report : Type 0 where
  pub governor : Bool
  pub isolated : Bool
  pub realtime : Bool
  pub permitted : Bool

-- `found` is whether the line of /proc/cmdline has "isolcpus="; `result` is what pthread_setschedparam returns.
unfoldable pub main : List Entry → Bool → Option ℕ → ℕ → ℕ × Report
unfolding check_cpu_governor check_rt_kernel
main entries found realtime result = (
  0,
  record {
    governor = check_cpu_governor entries;
    isolated = found;
    realtime = check_rt_kernel realtime;
    permitted = elim (set_realtime_priority result) [ none ↦ true | some _ ↦ false ];
  },
)

cleared : (es : List Entry) → all_performance false es ≡ false
unfolding all_performance
cleared [] = refl
cleared (e ∷ es) = ground (arith, cleared es)

-- The governors pass exactly if no entry clears the flag: a machine whose CPUs have no file of a governor passes.
check_cpu_governor-All :
    (es : List Entry) → (check_cpu_governor es ≡ true) ↔ All (λ e. clears e ≡ false) es
unfolding check_cpu_governor all_performance
check_cpu_governor-All [] = (λ _. tt, λ _. refl)
check_cpu_governor-All (e ∷ es) = elim (Bool-cases (clears e)) [
  | inl bad ↦
      (λ h. absurd (ground (arith, h, bad, cleared es)), λ h. absurd (ground (arith, h.0, bad)))
  | inr fine ↦
      let rest = check_cpu_governor-All es in
      (λ h. (fine, rest.0 (rw (fine, if◌then◌else◌) at h)), λ h. rw fine (rest.1 h.1))
]
