-- ===== src/Mock.antt =====
-- include/porth/PorthMockDevice.hpp: the shared memory region that stands in for a device's registers. The results
-- of the system calls are the argument `Os`.
pub mod Ownership
use porth_core.Base.{
  ℕ, Bool, true, false, Option, none, some, List, [], ◌∷◌, ◌++◌, not, ◌&&◌, if◌then◌else◌,
}
use porth_core.Resource.{Resource, Event, acquire, release, mapping, file}

-- What shm_open and mmap return (`none` for -1 and MAP_FAILED), and whether ftruncate does not return -1.
pub record Os : Type 0 where
  pub shm_open : Option ℕ
  pub ftruncate : Bool
  pub mmap : Option ℕ

-- `m_device_ptr` (`none` for null) and `m_is_owner`.
pub record MockDevice : Type 0 where
  pub device_ptr : Option ℕ
  pub is_owner : Bool

pub data Error : Type 0 where
  shm_open_failed ftruncate_failed mmap_failed : Error

pub data Outcome : Type 0 where
  built : MockDevice → Outcome
  thrown : Error → Outcome

-- One constructor or destructor: what it acquired and released, and whether the name is linked behind it.
pub record Trace : Type 0 where
  pub events : List Event
  pub linked : Bool

abbrev pub fd : ℕ → Resource
fd n = record { kind = file; handle = n; size = 0 }

-- The region; the size of the layout is the argument `bytes`.
abbrev pub region : ℕ → ℕ → Resource
region bytes p = record { kind = mapping; handle = p; size = bytes }

-- `create_` is the constructor's argument `create`, `linked` whether the name is linked before: the creator
-- unlinks it, and shm_open, where it succeeds, links it for the creator only.
unfoldable pub create : ℕ → Os → Bool → Bool → Trace × Outcome
create bytes os create_ linked =
    let before : Bool = linked && not create_ in
    elim os.shm_open [
      | none ↦ (record { events = []; linked = before }, thrown shm_open_failed)
      | some n ↦
          if create_ && not os.ftruncate
          then (
            record { events = acquire (fd n) ∷ release (fd n) ∷ []; linked = true },
            thrown ftruncate_failed,
          )
          else elim os.mmap [
            | none ↦ (
              record { events = acquire (fd n) ∷ release (fd n) ∷ []; linked = true },
              thrown mmap_failed,
            )
            | some p ↦ (
              record {
                events = acquire (fd n) ∷ acquire (region bytes p) ∷ release (fd n) ∷ [];
                linked = true;
              },
              built (record { device_ptr = some p; is_owner = create_ }),
            )
          ]
    ]

-- The destructor; `linked` is whether the name is linked before it.
unfoldable pub destroy : ℕ → MockDevice → Bool → Trace
destroy bytes d linked = record {
  events = elim d.device_ptr [ none ↦ [] | some p ↦ release (region bytes p) ∷ [] ];
  linked = linked && not d.is_owner;
}
