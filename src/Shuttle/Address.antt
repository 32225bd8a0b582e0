-- ===== src/Shuttle/Address.antt =====
-- The address of a shuttle: what holds of every pointer that the system calls return holds of it.
use mathlib.Core.Path.{subst}
use porth_core.Base.{
  ℕ, ◌≡◌, arith, not, ◌&&◌, Option, none, some, List, Option-cases, Bool-cases, inl, inr, ◌==◌,
}
use porth_core.Resource.{Event}
use porth_core.HugePage
use porth_core.HugePage.{HugePage, Os, attempt_hugepage_upgrade, allocate_initial_buffer}
use porth_core.Shuttle
use porth_core.Shuttle.{Shuttle, get_device_addr, place_ring}

module _ (P : ℕ → Type 0) where
  -- What a call returned, if it returned a pointer.
  abbrev pub OfPointer : Option ℕ → Type 0
  OfPointer none = Unit
  OfPointer (some p) = P p

  pub record Pointers (os : Os) : Type 0 where
    pub numa : OfPointer os.numa_alloc
    pub heap : OfPointer os.aligned_alloc
    pub mapping : OfPointer os.mmap

  -- The region that was built.
  Placed : HugePage.Outcome → Type 0
  Placed (HugePage.built h) = P h.ptr
  Placed (HugePage.thrown _) = Unit

  upgrade-Placed :
      (os : Os) (h : HugePage)
      → OfPointer os.mmap
      → P h.ptr
      → Placed (attempt_hugepage_upgrade os h).1
  unfolding Placed attempt_hugepage_upgrade
  upgrade-Placed os h a b = elim (Option-cases os.mmap) [
    | inl e ↦ elim (Bool-cases (not os.mlock && not os.ci)) [
      | inl bad ↦ rw (e, bad) tt
      | inr good ↦ rw (e, good) b
    ]
    | inr (p, e) ↦ rw e (subst OfPointer e a)
  ]

  initial-Placed : (os : Os) {p : ℕ} → Pointers os → (allocate_initial_buffer os).0 ≡ some p → P p
  unfolding allocate_initial_buffer
  initial-Placed os {p} a e = elim (Option-cases os.numa_alloc) [
    | inl f ↦ let g : os.aligned_alloc ≡ some p = ground (arith, e, f) in subst OfPointer g a.heap
    | inr (q, f) ↦ elim (Bool-cases os.numa_available) [
      | inl there ↦
          let g : os.numa_alloc ≡ some p = ground (arith, e, f, there) in subst OfPointer g a.numa
      | inr not_there ↦
          let g : os.aligned_alloc ≡ some p = ground (arith, e, f, not_there) in
          subst OfPointer g a.heap
    ]
  ]

  create-Placed : (os : Os) (size node : ℕ) → Pointers os → Placed (HugePage.create os size node).1
  unfolding Placed HugePage.create
  create-Placed os size node a = elim (Option-cases (allocate_initial_buffer os).0) [
    | inl e ↦ rw (e, Placed) tt
    | inr (p, e) ↦ rw (e, Placed) (upgrade-Placed os _ a.mapping (initial-Placed os a e))
  ]

  -- The address that the device is told.
  unfoldable pub Told : Shuttle.Outcome → Type 0
  Told (Shuttle.built_shuttle s) = P (get_device_addr s)
  Told (Shuttle.failed e) = Unit

  place_ring-Told :
      (capacity descriptors : ℕ) (x : List Event × HugePage.Outcome)
      → Placed x.1
      → Told (place_ring capacity descriptors x).1
  unfolding Placed Told place_ring get_device_addr
  place_ring-Told capacity descriptors (es, HugePage.thrown e) a = tt
  place_ring-Told capacity descriptors (es, HugePage.built h) a = elim (Bool-cases (h.ptr == 0)) [
    | inl e ↦ rw e a
    | inr e ↦ rw e a
  ]

  pub create-Told :
      (capacity : ℕ) (os : Os) (node descriptors : ℕ)
      → Pointers os
      → Told (Shuttle.create capacity os node descriptors).1
  unfolding Shuttle.create
  create-Told capacity os node descriptors a =
      place_ring-Told capacity descriptors _ (create-Placed os Shuttle.shuttle_page_size node a)
