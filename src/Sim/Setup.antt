-- ===== src/Sim/Setup.antt =====
-- The constructor and the setters of `PorthSimDevice`, with `PorthPDK` of include/porth/PorthPDK.hpp. The register
-- view is what the mock device maps; `config_open` is whether the profile's file can be opened.
use porth_core.Base.{
  ℕ, ◌<◌, ◌≡◌, refl, arith, Bool, true, false, Option, none, some, List, [], ◌∷◌, if◌then◌else◌,
}
use porth_core.Device.{Device}
use porth_core.Phy.{Phy, new_phy, set_config}
use porth_core.Sim.{Sim, Turn, sim_base_temp_mc, run_physics_loop}
use porth_core.Sim.Lattice.{InRange}
use porth_core.Sim.Loop.{run_physics_loop-InRange}

abbrev pub newport_base_ns : ℕ
newport_base_ns = 45

abbrev pub newport_jitter_ns : ℕ
newport_jitter_ns = 12

-- `PorthPDK`: the register offsets by name, as an association list.
pub record Pdk {ℓ} (Name : Type ℓ) : Type ℓ where
  pub offsets : List (Name × ℕ)

pub find_offset {ℓ} : {Name : Type ℓ} → (Name → Name → Bool) → Name → List (Name × ℕ) → Option ℕ
find_offset eq name [] = none
find_offset eq name ((key, offset) ∷ more) =
    if eq key name then some offset else find_offset eq name more

-- `load_manifest` looks whether the file can be opened, and no further.
unfoldable pub load_manifest {ℓ} : {Name : Type ℓ} → Bool → Pdk Name → Bool × Pdk Name
load_manifest opens pdk = (opens, pdk)

-- The manifests that are loaded one after the other, by whether they open, into an object that is new.
pub loaded {ℓ} : {Name : Type ℓ} → List Bool → Pdk Name
unfolding load_manifest
loaded [] = record { offsets = [] }
loaded (opens ∷ more) = (load_manifest opens (loaded more)).1

-- `get_offset`; `none` is the exception of std::map::at. `eq` compares two names.
unfoldable pub get_offset {ℓ} : {Name : Type ℓ} → (Name → Name → Bool) → Name → Pdk Name → Option ℕ
get_offset eq name pdk = find_offset eq name pdk.offsets

unfoldable pub load_newport_profile : Bool → Sim → Sim
load_newport_profile config_open s =
    if config_open then record s { phy = set_config newport_base_ns newport_jitter_ns s.phy } else s

unfoldable pub trigger_deadlock : Bool → Sim → Sim
trigger_deadlock active s = record s { inject_deadlock = active }

unfoldable pub trigger_corruption : Bool → Sim → Sim
trigger_corruption active s = record s { corrupt_status = active }

unfoldable pub set_bus_hang : Bool → Sim → Sim
set_bus_hang active s = record s { bus_hang = active }

unfoldable pub apply_scenario : ℕ → ℕ → Bool → Sim → Sim
unfolding trigger_corruption
apply_scenario base_ns jitter_ns chaos s =
    let s' : Sim = record s { phy = set_config base_ns jitter_ns s.phy } in
    if chaos then trigger_corruption true s' else s'

-- The constructor, up to the start of the physics thread; `none` is the error for a view that is null. The
-- other registers are as the shared memory has them. `phy` is the PHY with its default arguments.
unfoldable pub create : Phy → Bool → Option Device → Option Sim
unfolding load_newport_profile
create phy config_open none = none
create phy config_open (some dev) = some (
    load_newport_profile config_open (record {
      dev = record dev { laser_temp = sim_base_temp_mc; status = 0; control = 0 };
      phy = phy;
      run_sim = true;
      inject_deadlock = false;
      corrupt_status = false;
      bus_hang = false;
      last_valid_shuttle = 0;
    }))

unfoldable pub destroy : Sim → Sim
destroy s = record s { run_sim = false }

-- A device that is constructed over a region whose voltage register is below 804000 starts in range, and
-- stays so through any rounds, any scenario applied, and any rounds after it.
pub create-InRange :
    (base jitter : ℕ) (config_open : Bool) (dev : Device) (xs ys : List Turn) (base' jitter' : ℕ)
    (chaos : Bool)
    → dev.gan_voltage < 804000
    → (s : Sim) × (create (new_phy base jitter) config_open (some dev) ≡ some s)
      × InRange
          (run_physics_loop ys (apply_scenario base' jitter' chaos (run_physics_loop xs s).1)).1
unfolding create load_newport_profile apply_scenario trigger_corruption set_config
create-InRange base jitter config_open dev xs ys base' jitter' chaos h =
    let s : Sim = load_newport_profile config_open (record {
      dev = record dev { laser_temp = sim_base_temp_mc; status = 0; control = 0 };
      phy = new_phy base jitter;
      run_sim = true;
      inject_deadlock = false;
      corrupt_status = false;
      bus_hang = false;
      last_valid_shuttle = 0;
    }) in
    let started : InRange s = ground arith in
    let first = run_physics_loop-InRange xs s started in
    let applied : InRange (apply_scenario base' jitter' chaos (run_physics_loop xs s).1) =
      ground (arith, first) in
    (s, refl, run_physics_loop-InRange ys _ applied)

-- Whatever manifests are loaded, no name has an offset: every lookup throws.
pub get_offset-none :
    {Name : Type 0} (eq : Name → Name → Bool) (name : Name) (files : List Bool)
    → get_offset eq name (loaded files) ≡ none
unfolding get_offset loaded load_manifest find_offset
get_offset-none eq name [] = refl
get_offset-none eq name (opens ∷ files) = get_offset-none eq name files
