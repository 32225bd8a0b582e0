-- ===== src/Shuttle/Ownership.antt =====
-- What the shuttle holds and gives back, and where its descriptors are.
use porth_core.Base.{
  ℕ, ◌≡◌, ◌≢◌, refl, ◌∙◌, arith, true, List, [], ◌∷◌, ◌++◌, none, some, ◌==◌, inl, inr, Bool-cases,
}
use porth_core.Resource.{same_self, Resource, Event, acquire, release, settle, settle-append}
use porth_core.Ring
use porth_core.Ring.{Ring}
use porth_core.Ring.Inv.{IsSize, IsValid, create-IsValid}
use porth_core.Ring.Span.{contents, create-contents}
use porth_core.HugePage
use porth_core.HugePage.{
  HugePage, Os, Error, built, thrown, region, mlock_failed, total_memory_allocation_failure,
}
use porth_core.HugePage.Ownership.{Balanced, create-Balanced}
use porth_core.Shuttle.{
  Shuttle, Outcome, built_shuttle, failed, ring_memory, place_ring, create, destroy,
  shuttle_page_size, get_device_addr,
}

-- What a shuttle holds: its region, and the buffer of its ring when it has one.
abbrev pub held : ℕ → Shuttle → List Resource
held capacity s = elim s.ring [
  | none ↦ region s.memory ∷ []
  | some _ ↦ ring_memory capacity s.descriptors ∷ region s.memory ∷ []
]

-- What the ledger says after the constructor, by its outcome.
abbrev pub Kept : ℕ → List Event × Outcome → Type 0
Kept capacity (es, built_shuttle s) =
    (settle es [] ≡ some (held capacity s)) × (settle (es ++ destroy capacity s) [] ≡ some [])
Kept capacity (es, failed total_memory_allocation_failure) = settle es [] ≡ some []
Kept capacity (es, failed mlock_failed) = (r : Resource) × (settle es [] ≡ some (r ∷ []))

place_ring-Kept :
    (capacity descriptors : ℕ) (x : List Event × HugePage.Outcome)
    → Balanced x
    → Kept capacity (place_ring capacity descriptors x)
unfolding place_ring destroy HugePage.destroy Ring.destroy Ring.create
place_ring-Kept capacity descriptors (es, thrown total_memory_allocation_failure) b = b
place_ring-Kept capacity descriptors (es, thrown mlock_failed) b = b
place_ring-Kept capacity descriptors (es, built h) b = elim (Bool-cases (h.ptr == 0)) [
  | inl null ↦ rw null b
  | inr some_page ↦
      let buffer = ring_memory capacity descriptors in
      let here = settle-append es (acquire buffer ∷ []) [] b.0 in
      rw some_page (
        here,
        settle-append (es ++ acquire buffer ∷ []) (release buffer ∷ release (region h) ∷ []) [] here
            ∙ ground (arith, same_self buffer, same_self (region h)),
      )
]

-- Whatever the system calls return, the shuttle's ledger comes out so: a built shuttle holds its region
-- and, when it has a ring, one more allocation of 16 bytes a descriptor; its destructor gives exactly
-- these back and releases nothing twice; and where the constructor throws, nothing is held if memory was
-- refused, and one buffer still is if mlock failed.
pub create-Kept :
    (capacity : ℕ) (os : Os) (node descriptors : ℕ)
    → Kept capacity (create capacity os node descriptors)
unfolding create
create-Kept capacity os node descriptors =
    place_ring-Kept capacity descriptors _ (create-Balanced os shuttle_page_size node)

placed-ring :
    (capacity descriptors : ℕ) (x : List Event × HugePage.Outcome) {es : List Event} {s : Shuttle}
    → IsSize capacity
    → place_ring capacity descriptors x ≡ (es, built_shuttle s)
    → get_device_addr s ≢ 0
    → (r : Ring) × (s.ring ≡ some r)
      × IsValid capacity r
      × (contents capacity r ≡ [])
      × (r.owns_buffer ≡ true)
      × (get_device_addr s ≡ s.memory.ptr)
unfolding place_ring get_device_addr Ring.create
placed-ring capacity descriptors (es', thrown t) z e some_page = absurd (ground arith)
placed-ring capacity descriptors (es', built h) {es} {s} z e some_page =
    elim (Bool-cases (h.ptr == 0)) [
      | inl null ↦ absurd (ground arith)
      | inr p ↦ (
        Ring.create capacity none,
        ground (arith, e, p),
        create-IsValid z,
        create-contents capacity none,
        refl,
        ground (arith, e, p),
      )
    ]

-- The ring of a built shuttle: where the region's base is not null, it stands there, is valid and empty,
-- owns its buffer, and is what the device address, so far without an IOVA, points to.
pub create-ring :
    {capacity : ℕ} (os : Os) (node descriptors : ℕ) {es : List Event} {s : Shuttle}
    → IsSize capacity
    → create capacity os node descriptors ≡ (es, built_shuttle s)
    → get_device_addr s ≢ 0
    → (r : Ring) × (s.ring ≡ some r)
      × IsValid capacity r
      × (contents capacity r ≡ [])
      × (r.owns_buffer ≡ true)
      × (get_device_addr s ≡ s.memory.ptr)
unfolding create
create-ring {capacity} os node descriptors z e some_page =
    placed-ring capacity descriptors (HugePage.create os shuttle_page_size node) z e some_page
