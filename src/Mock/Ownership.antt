-- ===== src/Mock/Ownership.antt =====
-- What the mock device's constructor and destructor take and give back, and what becomes of the name of the region.
use porth_core.Base.{
  ℕ, ◌≡◌, refl, arith, true, false, Bool, [], ◌∷◌, ◌++◌, none, some, Option, not, ◌&&◌,
}
use porth_core.Resource.{same_self, settle}
use porth_core.Mock

-- What the ledger says after a constructor with the argument `create_` over a
-- name that is `linked` or not, by its outcome. A built object holds the region and
-- not the descriptor, its destructor gives exactly that back, and the name is unlinked by its creator only.
-- After an exception nothing is held; but
-- when what fails is not shm_open, the name is linked.
abbrev pub Settled : ℕ → Bool → Bool → Mock.Trace × Mock.Outcome → Type 0
Settled bytes create_ linked (t, Mock.built d) =
    (p : ℕ) × (d.device_ptr ≡ some p)
    × (settle t.events [] ≡ some (Mock.region bytes p ∷ []))
    × (settle (t.events ++ (Mock.destroy bytes d true).events) [] ≡ some [])
    × (t.linked ≡ true)
    × ((Mock.destroy bytes d true).linked ≡ not create_)
Settled bytes create_ linked (t, Mock.thrown Mock.shm_open_failed) =
    (settle t.events [] ≡ some []) × (t.linked ≡ linked && not create_)
Settled bytes create_ linked (t, Mock.thrown Mock.ftruncate_failed) =
    (settle t.events [] ≡ some []) × (create_ ≡ true) × (t.linked ≡ true)
Settled bytes create_ linked (t, Mock.thrown Mock.mmap_failed) =
    (settle t.events [] ≡ some []) × (t.linked ≡ true)

-- The ledger, result by result in the order of the calls.
by_result :
    (bytes : ℕ) (create_ linked : Bool) (n : Option ℕ) (sized : Bool) (m : Option ℕ)
    → Settled bytes create_ linked
        (Mock.create bytes (record { shm_open = n; ftruncate = sized; mmap = m }) create_ linked)
unfolding Mock.create Mock.destroy
by_result bytes create_ linked none sized m = (refl, refl)
by_result bytes true linked (some n) false m = (ground (arith, same_self (Mock.fd n)), refl, refl)
by_result bytes true linked (some n) true none = (ground (arith, same_self (Mock.fd n)), refl)
by_result bytes false linked (some n) sized none = (ground (arith, same_self (Mock.fd n)), refl)
by_result bytes true linked (some n) true (some p) =
    (p, refl, ground arith, ground arith, refl, refl)
by_result bytes false linked (some n) sized (some p) =
    (p, refl, ground arith, ground arith, refl, refl)

-- Whatever the system calls return, the ledger of the constructor comes out as `Settled` says: an object holds the
-- region alone and its destructor gives exactly that back, unlinking the name if the object created it; an
-- exception leaves nothing held, but the name linked if it was ftruncate or mmap that failed.
pub create-Settled :
    (bytes : ℕ) (os : Mock.Os) (create_ linked : Bool)
    → Settled bytes create_ linked (Mock.create bytes os create_ linked)
create-Settled bytes os create_ linked =
    by_result bytes create_ linked os.shm_open os.ftruncate os.mmap
