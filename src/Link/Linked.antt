-- ===== src/Link/Linked.antt =====
-- What the zero-copy handshake leaves in the registers, and what it gives back.
use porth_core.Base.{
  ℕ, ◌^◌, ◌<◌, ◌≡◌, refl, arith, Bool, true, false, some, List, [], ◌∷◌, ◌++◌, Bool-cases, inl, inr,
}
use porth_core.Resource.{Resource, Event, release, settle, settle-around, same, same_self}
use porth_core.Device.{Register, expected_layout_size}
use porth_core.Device.Mmio.{Memory, view, write_refines}
use porth_core.HugePage.{Os, total_memory_allocation_failure, mlock_failed}
use porth_core.Shuttle
use porth_core.Shuttle.{Shuttle, get_device_addr, place_ring}
use porth_core.Shuttle.Address.{Pointers, Told, create-Told}
use porth_core.Shuttle.Ownership.{Kept, create-Kept}
use porth_core.Mock
use porth_core.Mock.{region}
use porth_core.Mock.Ownership.{Settled, create-Settled}
use porth_core.Link.{Ended, main, with_outcome, with_device, write_and_verify, shuttle_capacity}

-- How the program ends, by what its two constructors came to: the registers that it leaves, its exit code, whether
-- their name is linked, and what is still held.
abbrev pub Fate : Memory → Mock.Trace × Mock.Outcome → List Event × Shuttle.Outcome → Ended → Type 0
Fate m (t, Mock.thrown e) x out =
    (out.exit_code ≡ 1) × (settle out.events [] ≡ some []) × (out.memory ≡ m)
Fate m (t, Mock.built hal) (es, Shuttle.failed total_memory_allocation_failure) out =
    (out.exit_code ≡ 1) × (settle out.events [] ≡ some []) × (out.linked ≡ false) × (out.memory ≡ m)
Fate m (t, Mock.built hal) (es, Shuttle.failed mlock_failed) out =
    (out.exit_code ≡ 1)
    × ((r : Resource) × (settle out.events [] ≡ some (r ∷ [])))
    × (out.linked ≡ false)
    × (out.memory ≡ m)
Fate m (t, Mock.built hal) (es, Shuttle.built_shuttle s) out =
    (out.exit_code ≡ 0)
    × (settle out.events [] ≡ some [])
    × (out.linked ≡ false)
    × (view out.memory ≡ record (view m) { data_ptr = get_device_addr s })

-- The exchange through the register.
write_and_verify-links :
    (s : Shuttle) (m : Memory)
    → get_device_addr s < 2 ^ 64
    → ((write_and_verify s m).0 ≡ 0)
      × (view (write_and_verify s m).1 ≡ record (view m) { data_ptr = get_device_addr s })
unfolding write_and_verify
write_and_verify-links s m h =
    let (seen, back) = write_refines Register.data_ptr (get_device_addr s) m h in
    (ground (arith, back), seen)

freed : (q : Resource) → settle (release q ∷ []) (q ∷ []) ≡ some []
freed q = ground (arith, same_self q)

-- Giving back one of two leaves one.
one_left :
    (q r : Resource) → (k : Resource) × (settle (release q ∷ []) (r ∷ q ∷ []) ≡ some (k ∷ []))
one_left q r = elim (Bool-cases (same q r)) [
  | inl e ↦ (q, ground (arith, e))
  | inr e ↦ (r, ground (arith, e, same_self q))
]

-- The mock device's destructor, after a constructor that came out as `Settled`.
destroyed :
    (hal : Mock.MockDevice) (t : Mock.Trace) (linked : Bool)
    → Settled expected_layout_size true linked (t, Mock.built hal)
    → (p : ℕ) × (settle t.events [] ≡ some (region expected_layout_size p ∷ []))
      × ((Mock.destroy expected_layout_size hal t.linked).events
          ≡ release (region expected_layout_size p) ∷ [])
      × ((Mock.destroy expected_layout_size hal t.linked).linked ≡ false)
unfolding Mock.destroy
destroyed hal t linked (p, at, held, back, name, unlinked) =
    (p, held, rw at refl, ground (arith, name, unlinked))

with_device-Fate :
    (hal : Mock.MockDevice) (t : Mock.Trace) (m : Memory) (x : List Event × Shuttle.Outcome)
    (linked : Bool)
    → Settled expected_layout_size true linked (t, Mock.built hal)
    → Kept shuttle_capacity x
    → Told (λ p. p < 2 ^ 64) x.1
    → Fate m (t, Mock.built hal) x (with_device hal t m x)
unfolding with_device Told
with_device-Fate hal t m (es, Shuttle.failed total_memory_allocation_failure) linked d x a =
    let (p, held, gone, unlinked) = destroyed hal t linked d in
    (
      refl,
      settle-around t.events es _ held x (rw gone (freed (region expected_layout_size p))),
      unlinked,
      refl,
    )
with_device-Fate hal t m (es, Shuttle.failed mlock_failed) linked d (r, x) a =
    let (p, held, gone, unlinked) = destroyed hal t linked d in
    let (k, left) = one_left (region expected_layout_size p) r in
    (refl, (k, settle-around t.events es _ held x (rw gone left)), unlinked, refl)
with_device-Fate hal t m (es, Shuttle.built_shuttle s) linked d (x, y) a =
    let (p, held, gone, unlinked) = destroyed hal t linked d in
    let (done, seen) = write_and_verify-links s m a in
    (
      done,
      settle-around t.events (es ++ Shuttle.destroy shuttle_capacity s) _ held y
          (rw gone (freed (region expected_layout_size p))),
      unlinked,
      seen,
    )

by_device :
    (os : Os) (descriptors : ℕ) (m : Memory) (x : Mock.Trace × Mock.Outcome) (linked : Bool)
    → Settled expected_layout_size true linked x
    → Pointers (λ p. p < 2 ^ 64) os
    → Fate m x (Shuttle.create shuttle_capacity os 0 descriptors) (with_outcome os descriptors m x)
unfolding with_outcome
by_device os descriptors m (t, Mock.thrown Mock.shm_open_failed) linked d a = (refl, d.0, refl)
by_device os descriptors m (t, Mock.thrown Mock.ftruncate_failed) linked d a = (refl, d.0, refl)
by_device os descriptors m (t, Mock.thrown Mock.mmap_failed) linked d a = (refl, d.0, refl)
by_device os descriptors m (t, Mock.built hal) linked d a =
    with_device-Fate hal t m _ linked d (create-Kept shuttle_capacity os 0 descriptors)
      (create-Told _ shuttle_capacity os 0 descriptors a)

-- Whatever the system calls return, as long as the pointers among it are addresses of 64 bits: if both objects could
-- be built, the address read back is the one written, the exit code is 0 and data_ptr holds the shuttle's
-- device address while the other seven registers are as they were; else the exit code is 1 and no register
-- has changed. In every case all is given back and, once the device was built, its name unlinked, but for
-- the one buffer that a failed mlock leaves.
pub main-Fate :
    (shm : Mock.Os) (os : Os) (descriptors : ℕ) (linked : Bool) (m : Memory)
    → Pointers (λ p. p < 2 ^ 64) os
    → Fate m
        (Mock.create expected_layout_size shm true linked)
        (Shuttle.create shuttle_capacity os 0 descriptors)
        (main shm os descriptors linked m)
unfolding main
main-Fate shm os descriptors linked m a =
    by_device os descriptors m _ linked (create-Settled expected_layout_size shm true linked) a
