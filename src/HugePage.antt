-- ===== src/HugePage.antt =====
-- include/porth/PorthHugePage.hpp: acquisition, upgrade and release of the pinned memory region. The results of
-- the system calls are the argument `Os`.
pub mod Ownership
use porth_core.Base.{
  ℕ, ◌+◌, ◌-◌, ◌*◌, ◌/◌, ◌^◌, Bool, true, false, not, ◌&&◌, Option, none, some, List, [], ◌∷◌, ◌++◌,
  u64, if◌then◌else◌,
}
use porth_core.Resource.{Resource, Event, acquire, release, numa, heap, mapping}

-- `HP_SIZE`
abbrev pub hp_size : ℕ
hp_size = 2 * 1024 * 1024

-- What the calls of one construction return: `numa_available() >= 0`, the pointers of numa_alloc_onnode,
-- std::aligned_alloc and mmap (`none` for null and MAP_FAILED), `mlock(...) == 0`, and whether CI is set.
pub record Os : Type 0 where
  pub numa_available : Bool
  pub numa_alloc : Option ℕ
  pub aligned_alloc : Option ℕ
  pub mmap : Option ℕ
  pub mlock : Bool
  pub ci : Bool

pub record HugePage : Type 0 where
  pub ptr : ℕ
  pub total_size : ℕ  -- size_t
  pub node : ℕ
  pub is_numa_managed : Bool
  pub is_mmaped : Bool

pub data Error : Type 0 where
  total_memory_allocation_failure mlock_failed : Error

-- A constructor's outcome, with what it acquired and released on the way.
pub data Outcome : Type 0 where
  built : HugePage → Outcome
  thrown : Error → Outcome

-- `((size + HP_SIZE - 1) / HP_SIZE) * HP_SIZE`, in size_t.
unfoldable pub total_size_of : ℕ → ℕ
total_size_of size = u64 (u64 (size + hp_size - 1) / hp_size * hp_size)

-- `allocate_initial_buffer`: the pointer, and whether libnuma manages it.
unfoldable pub allocate_initial_buffer : Os → Option ℕ × Bool
allocate_initial_buffer os =
    if os.numa_available
    then elim os.numa_alloc [ some p ↦ (some p, true) | none ↦ (os.aligned_alloc, false) ]
    else (os.aligned_alloc, false)

-- The region that the flags and the pointer stand for, as the destructor releases it.
unfoldable pub region : HugePage → Resource
region h = record {
  kind = if h.is_mmaped then mapping else if h.is_numa_managed then numa else heap;
  handle = h.ptr;
  size = h.total_size;
}

-- `attempt_hugepage_upgrade`
unfoldable pub attempt_hugepage_upgrade : Os → HugePage → List Event × Outcome
unfolding region
attempt_hugepage_upgrade os h = elim os.mmap [
  | none ↦ if not os.mlock && not os.ci then ([], thrown mlock_failed) else ([], built h)
  | some p ↦
      let h' : HugePage = record h { ptr = p; is_mmaped = true } in
      (acquire (region h') ∷ release (region h) ∷ [], built h')
]

unfoldable pub create : Os → ℕ → ℕ → List Event × Outcome
unfolding allocate_initial_buffer region
create os size node =
    let (ptr, managed) = allocate_initial_buffer os in
    elim ptr [
      | none ↦ ([], thrown total_memory_allocation_failure)
      | some p ↦
          let h : HugePage = record {
            ptr = p;
            total_size = total_size_of size;
            node = node;
            is_numa_managed = managed;
            is_mmaped = false;
          } in
          let (events, out) = attempt_hugepage_upgrade os h in (acquire (region h) ∷ events, out)
    ]

-- The destructor. (The pointer of a built object is not null.)
unfoldable pub destroy : HugePage → List Event
unfolding region
destroy h = release (region h) ∷ []
