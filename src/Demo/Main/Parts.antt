-- ===== src/Demo/Main/Parts.antt =====
-- The parts of the demonstration's `main`: what each takes and gives back.
use porth_core.Base.{
  ℕ, ◌≤◌, ◌≡◌, ◌≢◌, refl, arith, true, false, Option, none, some, List, [], ◌++◌, Bool-cases, inl,
  inr, length,
}
use porth_core.Resource.{Resource, Event, settle, same_self}
use porth_core.Device.{expected_layout_size}
use porth_core.Vfio
use porth_core.Vfio.Ownership.{Accounted, create-Accounted, left_open}
use porth_core.Mock
use porth_core.Mock.Ownership.{Settled, create-Settled}
use porth_core.Shuttle.{Shuttle}
use porth_core.Xdp.{bind_shuttle_memory}
use porth_core.Xdp.Lifecycle.{open_portal, close, umem_of, socket_of}
use porth_core.Demo.Main.{
  World, Backend, physical, simulated, open_backend, close_backend, set_up_portal,
}

-- What the ledger says of the back-end: its destructor gives back what its constructor took, and a constructor that
-- throws leaves at most three descriptors open.
abbrev pub BackendKept : List Event × Option Backend → Type 0
BackendKept (es, none) = (held : List Resource) × (settle es [] ≡ some held) × (length held ≤ 3)
BackendKept (es, some b) = settle (es ++ close_backend b) [] ≡ some []

left_open-le : (e : Vfio.Error) → left_open e ≤ 3
left_open-le e = ground arith

physical-Kept :
    (x : List Event × Vfio.Outcome)
    → Accounted x
    → BackendKept
        (elim x.1 [ Vfio.thrown e ↦ (x.0, none) | Vfio.built d ↦ (x.0, some (physical d)) ])
unfolding close_backend
physical-Kept (es, Vfio.thrown e) (held, s, size) = (held, s, omega (arith, size, left_open-le e))
physical-Kept (es, Vfio.built d) (size, s) = s

simulated-Kept :
    (x : Mock.Trace × Mock.Outcome)
    → Settled expected_layout_size true false x
    → BackendKept (elim x.1 [
      | Mock.thrown e ↦ (x.0.events, none)
      | Mock.built d ↦ (x.0.events, some (simulated d))
    ])
unfolding close_backend
simulated-Kept (t, Mock.thrown Mock.shm_open_failed) s = ([], s.0, omega arith)
simulated-Kept (t, Mock.thrown Mock.ftruncate_failed) s = ([], s.0, omega arith)
simulated-Kept (t, Mock.thrown Mock.mmap_failed) s = ([], s.0, omega arith)
simulated-Kept (t, Mock.built d) (p, at, held, back, name, unlinked) = back

pub open_backend-Kept : (w : World) → BackendKept (open_backend w)
unfolding open_backend
open_backend-Kept w = elim (Bool-cases w.has_argument) [
  | inl e ↦ rw e (physical-Kept _ (create-Accounted w.vfio))
  | inr e ↦ rw e (simulated-Kept _ (create-Settled expected_layout_size w.shm true false))
]

-- The portal gives back what libxdp handed out, whether or not it opens.
portal_by_result :
    (shuttle : Shuttle) (w : World) (u x fd : Option ℕ)
    → u ≢ some 0
    → x ≢ some 0
    → let (es, ok, p) = set_up_portal (record w { umem = u; xsk = x; xsk_fd = fd }) shuttle in
      settle (es ++ close p) [] ≡ some []
unfolding set_up_portal open_portal close bind_shuttle_memory
portal_by_result shuttle w none x fd hu hx = refl
portal_by_result shuttle w (some u) none none hu hx = ground (arith, same_self (umem_of u))
portal_by_result shuttle w (some u) none (some d) hu hx = ground (arith, same_self (umem_of u))
portal_by_result shuttle w (some u) (some x) none hu hx =
    ground (arith, same_self (umem_of u), same_self (socket_of x))
portal_by_result shuttle w (some u) (some x) (some d) hu hx =
    ground (arith, same_self (umem_of u), same_self (socket_of x))

pub set_up_portal-kept :
    (w : World) (shuttle : Shuttle)
    → w.umem ≢ some 0
    → w.xsk ≢ some 0
    → let (es, ok, p) = set_up_portal w shuttle in settle (es ++ close p) [] ≡ some []
set_up_portal-kept w shuttle hu hx = portal_by_result shuttle w w.umem w.xsk w.xsk_fd hu hx
