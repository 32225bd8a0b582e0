-- ===== src/Telemetry/Hub.antt =====
-- `PorthTelemetryHub`: shared memory taken and given back, on every outcome of the system calls.
use porth_core.Base.{
  ℕ, zero, suc, ◌≡◌, refl, Bool, true, false, Option, none, some, List, [], ◌∷◌, ◌++◌, ◌*◌, ◌^◌,
  ◌==◌, ◌-◌, ◌+◌, Option-cases, inl, inr, if◌then◌else◌, not, ◌&&◌, arith, ◌≢◌,
}
use porth_core.Resource.{same_self, Resource, Event, acquire, release, settle, file, mapping}

-- `sizeof(PorthStats)` on the LP64 targets: four counters of 8 bytes and two of 4.
abbrev pub sizeof_stats : ℕ
sizeof_stats = 5 * 8 + 8

-- What the constructor's calls return: shm_open's descriptor, whether ftruncate and fchmod succeed, and
-- what mmap returns.
pub record Os : Type 0 where
  pub shm_open : Option ℕ
  pub ftruncate : Bool
  pub fchmod : Bool
  pub mmap : Option ℕ

-- `MAP_FAILED`, which is `(void *) -1`.
abbrev pub map_failed : ℕ
map_failed = 2 ^ 64 - 1

pub record TelemetryHub : Type 0 where
  pub stats : ℕ  -- m_stats
  pub owner : Bool

pub data Error : Type 0 where
  shm_failed size_failed permissions_failed : Error

-- `stores addr` is the placement new of a `PorthStats` at `addr`.
pub data Outcome : Type 0 where
  built_hub : TelemetryHub → (stores : Option ℕ) → Outcome
  thrown : Error → Outcome

abbrev pub shm : ℕ → Resource
shm fd = record { kind = file; handle = fd; size = 0 }

abbrev pub map_of : ℕ → Resource
map_of addr = record { kind = mapping; handle = addr; size = sizeof_stats }

-- The mapping, after the size and the permissions: a failed mmap is not looked at.
unfoldable pub map_stats : Os → Bool → ℕ → List Event × Outcome
map_stats os owner fd =
    let addr : ℕ = elim os.mmap [ none ↦ map_failed | some p ↦ p ] in
    let mapped : List Event = elim os.mmap [ none ↦ [] | some p ↦ acquire (map_of p) ∷ [] ] in
    let stores : Option ℕ = if owner then some addr else none in
    (
      acquire (shm fd) ∷ mapped ++ release (shm fd) ∷ [],
      built_hub (record { stats = addr; owner = owner }) stores,
    )

unfoldable pub create : Os → Bool → List Event × Outcome
unfolding map_stats
create os owner = elim os.shm_open [
  | none ↦ ([], thrown shm_failed)
  | some fd ↦
      if owner && not os.ftruncate
      then (acquire (shm fd) ∷ release (shm fd) ∷ [], thrown size_failed)
      else if owner && not os.fchmod
      then (acquire (shm fd) ∷ release (shm fd) ∷ [], thrown permissions_failed)
      else map_stats os owner fd
]

-- The destructor: what it unmaps, and whether it unlinks the name.
unfoldable pub destroy : TelemetryHub → List Event × Bool
destroy h = (if h.stats == 0 then [] else release (map_of h.stats) ∷ [], h.owner)

-- What the ledger says after the constructor: nothing is left where it throws; a built hub whose mmap
-- succeeded holds that mapping, and its destructor gives exactly it back; and one whose mmap failed
-- holds nothing, while its destructor unmaps what it never had.
abbrev pub Closed : Os → List Event × Outcome → Type 0
Closed os (es, thrown e) = settle es [] ≡ some []
Closed os (es, built_hub h stores) =
    (settle es [] ≡ some (elim os.mmap [ none ↦ [] | some p ↦ map_of p ∷ [] ]))
    × (settle (es ++ (destroy h).0) [] ≡ elim os.mmap [ none ↦ none | some p ↦ some [] ])

map_stats-Closed :
    (os : Os) (owner : Bool) (fd : ℕ) → os.mmap ≢ some 0 → Closed os (map_stats os owner fd)
unfolding map_stats destroy
map_stats-Closed os owner fd mapped = elim (Option-cases os.mmap) [
  | inl f ↦ rw f (ground (arith, same_self (shm fd)), ground (arith, same_self (shm fd)))
  | inr (zero, f) ↦ absurd (mapped f)
  | inr (suc p, f) ↦ rw f (
    ground (arith, same_self (shm fd)),
    ground (arith, same_self (shm fd), same_self (map_of (suc p))),
  )
]

if-Closed :
    (os : Os) (b : Bool) (x y : List Event × Outcome)
    → Closed os x
    → Closed os y
    → Closed os (if b then x else y)
if-Closed os true x y p q = p
if-Closed os false x y p q = q

closed : (fd : ℕ) → settle (acquire (shm fd) ∷ release (shm fd) ∷ []) [] ≡ some []
closed fd = ground (arith, same_self (shm fd))

-- Whatever the system calls return, the descriptor is closed and the ledger comes out as `Closed` says.
-- (A mapping is never at address 0.)
pub create-Closed : (os : Os) (owner : Bool) → os.mmap ≢ some 0 → Closed os (create os owner)
unfolding create map_stats destroy
create-Closed os owner mapped = elim (Option-cases os.shm_open) [
  | inl e ↦ rw e refl
  | inr (fd, e) ↦ rw e (
      if-Closed os (owner && not os.ftruncate) _ _ (closed fd) (
        if-Closed os (owner && not os.fchmod) _ _ (closed fd)
          (map_stats-Closed os owner fd mapped)))
]
