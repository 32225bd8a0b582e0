-- ===== src/Portal/Session.antt =====
-- include/porth/PorthNetworkPortal.hpp and examples/network_portal_demo.cpp: how a portal is set up, serves and is torn
-- down. What the libraries return is an argument.
pub mod Settled
pub mod Polls
use porth_core.Base.{
  ℕ, ◌+◌, ◌≡◌, ◌≢◌, ◌↔◌, refl, ap, arith, Bool, true, false, not, ◌&&◌, Option, none, some, List,
  [], ◌∷◌, ◌++◌, ◌==◌, if◌then◌else◌,
}
use porth_core.Resource.{
  Resource, Event, acquire, settle, socket, umem, heap, bpf_object, same_self,
}
use porth_core.Portal.{Owned, destroy, umem_size, prime_fill_ring, Received, poll_rx}

-- The pointers that posix_memalign, xsk_umem__create, xsk_socket__create and bpf_object__open_file hand out (`none`
-- where they fail); whether one of the two paths of the program exists; the map's descriptor (`none` below
-- 0); how many slots of the fill ring are reserved; what each poll receives until the signal, if no exception comes
-- first; and `max_size` of std::string.
pub record Answers : Type 0 where
  pub area : Option ℕ
  pub program_exists : Bool
  pub umem_created : Option ℕ
  pub xsk_created : Option ℕ
  pub object : Option ℕ
  pub map_fd : Option ℕ
  pub reserved : ℕ
  pub received : List (Option Received)
  pub max_size : ℕ

pub data Error : Type 0 where
  no_area no_program no_registration no_socket : Error

-- What `main` did: the exception that ended it, or, for a portal that served, whether the socket was entered in the
-- program's map, the frames handed to the fill ring, and the number of packets polled, up to the signal or up to the
-- std::length_error out of a poll.
pub data Ending : Type 0 where
  ended_by : Error → Ending
  served cut_short : (bound : Bool) (primed : List ℕ) (polled : ℕ) → Ending

abbrev pub resource : Error → ℕ → Resource
resource no_area p = record { kind = heap; handle = p; size = umem_size }
resource no_program p = record { kind = bpf_object; handle = p; size = 0 }
resource no_registration p = record { kind = umem; handle = p; size = 0 }
resource no_socket p = record { kind = socket; handle = p; size = 0 }

abbrev pub is_null : Option ℕ → Bool
is_null none = true
is_null (some _) = false

abbrev pub pointer : Option ℕ → ℕ
pointer none = 0
pointer (some p) = p

-- The constructor, and the members that it leaves null.
unfoldable pub create : ℕ → Owned
create area = record { xsk = 0; umem_handle = 0; umem_area = area; bpf_obj = 0 }

-- `initialize_umem`; `false` where it throws.
unfoldable pub initialize_umem : Option ℕ → Owned → Bool × Owned
initialize_umem none o = (false, o)
initialize_umem (some u) o = (true, record o { umem_handle = u })

-- `create_socket`; `false` where it throws.
unfoldable pub create_socket : Option ℕ → Owned → Bool × Owned
create_socket none o = (false, o)
create_socket (some x) o = (true, record o { xsk = x })

-- `load_kernel_program`: the result of bpf_object__load is ignored.
unfoldable pub load_kernel_program : Option ℕ → Owned → Owned
load_kernel_program object o = record o { bpf_obj = pointer object }

-- `bind_xsk_map`: whether it comes to bpf_map_update_elem, for key 0.
unfoldable pub bind_xsk_map : Option ℕ → Owned → Bool
bind_xsk_map map_fd o = not (o.bpf_obj == 0) && (not (o.xsk == 0) && not (is_null map_fd))

-- The loop of polls: whether it comes to the signal, and what its polls return together.
unfoldable pub poll_all : ℕ → List (Option Received) → Bool × ℕ
poll_all max_size [] = (true, 0)
poll_all max_size (r ∷ rs) =
    let (signalled, more) = poll_all max_size rs in
    elim (poll_rx max_size r).returned [ none ↦ (false, 0) | some n ↦ (signalled, n + more) ]

abbrev got : Error → Option ℕ → List Event
got e none = []
got e (some p) = acquire (resource e p) ∷ []

-- `main`, with what is acquired and released; the destructor runs whenever the constructor has not thrown.
unfoldable pub serve : Answers → List Event × Ending
unfolding create initialize_umem create_socket load_kernel_program bind_xsk_map
serve a = elim a.area [
  | none ↦ ([], ended_by no_area)
  | some p ↦
      let o = create p in
      let area = got no_area (some p) in
      let (registered, o1) = initialize_umem a.umem_created o in
      let umem_ : List Event = area ++ got no_registration a.umem_created in
      let (connected, o2) = create_socket a.xsk_created o1 in
      let xsk : List Event = umem_ ++ got no_socket a.xsk_created in
      let o3 = load_kernel_program a.object o2 in
      let all : List Event = xsk ++ got no_program a.object in
      if not a.program_exists
      then (area ++ destroy o, ended_by no_program)
      else if not registered
      then (umem_ ++ destroy o1, ended_by no_registration)
      else if not connected
      then (xsk ++ destroy o2, ended_by no_socket)
      else (let bound = bind_xsk_map a.map_fd o3 in
          let primed = prime_fill_ring a.reserved in
          let (signalled, polled) = poll_all a.max_size a.received in
          (
            all ++ destroy o3,
            if signalled then served bound primed polled else cut_short bound primed polled,
          ))
]
