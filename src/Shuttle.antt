-- ===== src/Shuttle.antt =====
-- include/porth/PorthShuttle.hpp: a descriptor ring placed at the base of a pinned region. `capacity` is the
-- template parameter Capacity; `descriptors` is the address that `new PorthDescriptor[SIZE]` returns.
pub mod Ownership
pub mod Address
use porth_core.Base.{
  ℕ, ◌+◌, ◌*◌, Bool, Option, none, some, List, [], ◌∷◌, ◌++◌, ◌==◌, if◌then◌else◌,
}
use porth_core.Resource.{Resource, Event, acquire, release, heap}
use porth_core.Ring
use porth_core.Ring.{Ring}
use porth_core.HugePage
use porth_core.HugePage.{HugePage, Os, Error, built, thrown}

-- `SHUTTLE_PAGE_SIZE`
abbrev pub shuttle_page_size : ℕ
shuttle_page_size = 2 * 1024 * 1024

pub record Shuttle : Type 0 where
  pub memory : HugePage
  pub ring : Option Ring  -- m_ring_ptr
  pub descriptors : ℕ
  pub device_iova : ℕ  -- uint64_t

-- The ring's own allocation: 16 bytes for each `PorthDescriptor`.
unfoldable pub ring_memory : ℕ → ℕ → Resource
ring_memory capacity descriptors = record {
  kind = heap;
  handle = descriptors;
  size = 16 * capacity;
}

pub data Outcome : Type 0 where
  built_shuttle : Shuttle → Outcome
  failed : Error → Outcome

-- What the constructor does once `m_memory` is there: the placement new of a ring at its base, which takes
-- no external buffer. An error of the region's constructor leaves it at once.
unfoldable pub place_ring : ℕ → ℕ → List Event × HugePage.Outcome → List Event × Outcome
unfolding ring_memory
place_ring capacity descriptors (events, thrown e) = (events, failed e)
place_ring capacity descriptors (events, built memory) =
    let with_ring = λ (ring : Option Ring).
      built_shuttle
        (record { memory = memory; ring = ring; descriptors = descriptors; device_iova = 0 }) in
    if memory.ptr == 0 then (events, with_ring none) else (
      events ++ acquire (ring_memory capacity descriptors) ∷ [],
      with_ring (some (Ring.create capacity none)),
    )

unfoldable pub create : ℕ → Os → ℕ → ℕ → List Event × Outcome
create capacity os numa_node descriptors =
    place_ring capacity descriptors (HugePage.create os shuttle_page_size numa_node)

-- The destructor: the ring's, called by hand, deletes the buffer that the ring owns; then the member
-- `m_memory` goes.
unfoldable pub destroy : ℕ → Shuttle → List Event
unfolding ring_memory
destroy capacity s = elim s.ring [
  | none ↦ HugePage.destroy s.memory
  | some ring ↦ elim (Ring.destroy ring) [
    | none ↦ HugePage.destroy s.memory
    | some _ ↦ release (ring_memory capacity s.descriptors) ∷ HugePage.destroy s.memory
  ]
]

unfoldable pub set_device_iova : ℕ → Shuttle → Shuttle
set_device_iova iova s = record s { device_iova = iova }

unfoldable pub get_device_addr : Shuttle → ℕ
get_device_addr s = if s.device_iova == 0 then s.memory.ptr else s.device_iova

-- `get_raw_memory_ptr` and `get_raw_memory_size`
abbrev pub get_raw_memory_ptr : Shuttle → ℕ
get_raw_memory_ptr s = s.memory.ptr

abbrev pub get_raw_memory_size : Shuttle → ℕ
get_raw_memory_size s = s.memory.total_size
