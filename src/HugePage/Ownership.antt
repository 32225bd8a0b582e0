-- ===== src/HugePage/Ownership.antt =====
-- What the region's constructor and destructor acquire and release, and the rounding of its size.
use porth_core.Base.{
  ℕ, ◌+◌, ◌%◌, ◌^◌, ◌≤◌, ◌<◌, ◌≡◌, refl, inl, inr, arith, true, false, List, [], ◌∷◌, ◌++◌, none,
  some, Option-cases, Bool-cases, ◌≢◌, ◌↔◌, not, ◌&&◌,
}
use porth_core.Resource.{same_self, Resource, Event, acquire, release, settle, same}
use porth_core.HugePage.{
  Os, HugePage, Outcome, built, thrown, mlock_failed, total_memory_allocation_failure, hp_size,
  total_size_of, create, destroy, region, allocate_initial_buffer, attempt_hugepage_upgrade,
}

-- The size is rounded up to the next multiple of 2 MiB, unless that exceeds 2^64.
pub total_size_of-rounds :
    (size : ℕ)
    → size + hp_size ≤ 2 ^ 64
    → (total_size_of size % hp_size ≡ 0)
      × (size ≤ total_size_of size)
      × (total_size_of size < size + hp_size)
unfolding total_size_of
total_size_of-rounds size h = omega arith

-- What the ledger says after a constructor, by its outcome: a built object holds one region and its
-- destructor gives exactly that back; a failed mlock leaks the buffer.
abbrev pub Balanced : List Event × Outcome → Type 0
Balanced (es, built h) =
    (settle es [] ≡ some (region h ∷ [])) × (settle (es ++ destroy h) [] ≡ some [])
Balanced (es, thrown total_memory_allocation_failure) = settle es [] ≡ some []
Balanced (es, thrown mlock_failed) = (r : Resource) × (settle es [] ≡ some (r ∷ []))

settle_one : (r : Resource) → settle (acquire r ∷ release r ∷ []) [] ≡ some []
settle_one r = rw (same_self r, settle)

settle_exchange :
    (r q : Resource)
    → same r q ≡ false
    → (settle (acquire r ∷ acquire q ∷ release r ∷ []) [] ≡ some (q ∷ []))
      × (settle (acquire r ∷ acquire q ∷ release r ∷ release q ∷ []) [] ≡ some [])
settle_exchange r q e = (ground (arith, same_self r), ground (arith, same_self r, same_self q))

mapped-ne :
    (h : HugePage) (p : ℕ)
    → h.is_mmaped ≡ false
    → same (region h) (region (record h { ptr = p; is_mmaped = true })) ≡ false
unfolding region
mapped-ne h p e = ground arith

upgrade-Balanced :
    (os : Os) (h : HugePage)
    → h.is_mmaped ≡ false
    → let (es, out) = attempt_hugepage_upgrade os h in Balanced (acquire (region h) ∷ es, out)
unfolding attempt_hugepage_upgrade destroy
upgrade-Balanced os h private = elim (Option-cases os.mmap) [
  | inr (p, e) ↦ rw e (
      settle_exchange (region h) (region (record h { ptr = p; is_mmaped = true }))
        (mapped-ne h p private))
  | inl e ↦ elim (Bool-cases (not os.mlock && not os.ci)) [
    | inl bad ↦ rw (e, bad) (region h, refl)
    | inr good ↦ rw (e, good) (refl, settle_one (region h))
  ]
]

-- Whatever the system calls return, the region's ledger comes out as `Balanced` says: an object holds
-- exactly one region, its destructor gives exactly that back by the call that fits how it was obtained,
-- nothing is released twice; a constructor that throws for lack of memory holds nothing; and one that
-- throws after mlock failed leaves its buffer allocated.
pub create-Balanced : (os : Os) (size node : ℕ) → Balanced (create os size node)
unfolding create
create-Balanced os size node = elim (Option-cases (allocate_initial_buffer os).0) [
  | inl e ↦ rw (e, create) refl
  | inr (p, e) ↦ rw (e, create) (upgrade-Balanced os _ refl)
]

-- The leak happens exactly when a buffer was had, the huge page was refused, mlock failed, and the
-- environment has no CI variable.
pub leaks_iff :
    (os : Os) (size node : ℕ)
    → ((create os size node).1 ≡ thrown mlock_failed) ↔ (
        ((allocate_initial_buffer os).0 ≢ none)
        × (os.mmap ≡ none)
        × (os.mlock ≡ false)
        × (os.ci ≡ false))
unfolding create attempt_hugepage_upgrade
leaks_iff os size node = elim (Option-cases (allocate_initial_buffer os).0) [
  | inl e ↦ (λ h. ground arith, λ h. ground arith)
  | inr (p, e) ↦ (λ h. ground arith, λ h. ground arith)
]
