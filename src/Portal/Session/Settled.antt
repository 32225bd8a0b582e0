-- ===== src/Portal/Session/Settled.antt =====
-- What a session of the portal acquires and gives back, and how it ends.
use porth_core.Base.{
  All, if◌then◌else◌, ℕ, ◌≡◌, ◌≢◌, ◌↔◌, refl, ap, arith, Bool, true, false, not, ◌&&◌, Option, none,
  some, List, [], ◌==◌,
}
use porth_core.Resource.{settle, same_self}
use porth_core.Portal.{destroy, Received, prime_fill_ring}
use porth_core.Portal.Frames.{IsMaxSize}
use porth_core.Portal.Session.Polls.{FitsWord, Polled, poll_all-Polled}
use porth_core.Portal.Session.{
  Answers, no_area, no_program, no_registration, no_socket, Ending, ended_by, served, cut_short,
  resource, is_null, serve, poll_all,
}

-- Handles that are not null.
abbrev pub NotNull : Option ℕ → Type 0
NotNull h = h ≢ some 0

-- Everything is there, and whether the socket is entered in the map.
abbrev pub IsSetUp : Answers → Bool → Type 0
IsSetUp a bound =
    (a.area ≢ none)
    × (a.program_exists ≡ true)
    × (a.umem_created ≢ none)
    × (a.xsk_created ≢ none)
    × ((bound ≡ true) ↔ ((a.object ≢ none) × (a.map_fd ≢ none)))

-- How `main` ends, by what the libraries answer.
abbrev pub Ends : Answers → Ending → Type 0
Ends a (ended_by no_area) = a.area ≡ none
Ends a (ended_by no_program) = (a.area ≢ none) × (a.program_exists ≡ false)
Ends a (ended_by no_registration) =
    (a.area ≢ none) × (a.program_exists ≡ true) × (a.umem_created ≡ none)
Ends a (ended_by no_socket) =
    (a.area ≢ none) × (a.program_exists ≡ true) × (a.umem_created ≢ none) × (a.xsk_created ≡ none)
Ends a (served bound primed polled) =
    IsSetUp a bound × (primed ≡ prime_fill_ring a.reserved) × Polled a.received (true, polled)
Ends a (cut_short bound primed polled) =
    IsSetUp a bound × (primed ≡ prime_fill_ring a.reserved) × Polled a.received (false, polled)

nonzero : {p : ℕ} → NotNull (some p) → p ≢ 0
nonzero h e = h (ap some e)

bound_iff :
    (x b : ℕ) (m : Option ℕ)
    → x ≢ 0
    → b ≢ 0
    → (not (b == 0) && (not (x == 0) && not (is_null m)) ≡ true)
      ↔ ((◌≢◌ {A = Option ℕ} (some b) none) × (m ≢ none))
bound_iff x b none hx hb = (λ e. absurd (ground arith), λ e. absurd (e.1 refl))
bound_iff x b (some m) hx hb = (λ e. (λ f. absurd (cc), λ f. absurd (cc)), λ e. ground arith)

abbrev answering :
    Option ℕ
    → Bool
    → Option ℕ
    → Option ℕ
    → Option ℕ
    → Option ℕ
    → ℕ
    → List (Option Received)
    → ℕ
    → Answers
answering area exists_ u x b m n rs most = record {
  area = area;
  program_exists = exists_;
  umem_created = u;
  xsk_created = x;
  object = b;
  map_fd = m;
  reserved = n;
  received = rs;
  max_size = most;
}

-- From the polls on.
by_polls :
    (a : Answers) (bound : Bool) (primed : List ℕ) (x : Bool × ℕ)
    → IsSetUp a bound
    → primed ≡ prime_fill_ring a.reserved
    → Polled a.received x
    → Ends a (if x.0 then served bound primed x.1 else cut_short bound primed x.1)
by_polls a bound primed (true, n) s p q = (s, p, q)
by_polls a bound primed (false, n) s p q = (s, p, q)

by_answer :
    (area : Option ℕ) (exists_ : Bool) (u x b m : Option ℕ) (n : ℕ) (rs : List (Option Received))
    (most : ℕ)
    → NotNull area
    → NotNull u
    → NotNull x
    → NotNull b
    → IsMaxSize most
    → All FitsWord rs
    → let a = answering area exists_ u x b m n rs most in
      (settle (serve a).0 [] ≡ some []) × Ends a (serve a).1
unfolding serve destroy
by_answer none v u x b m n rs most hp hu hx hb size words = (refl, refl)
by_answer (some p) false u x b m n rs most hp hu hx hb size words =
    (ground (arith, nonzero hp, same_self (resource no_area p)), ((λ e. absurd (cc)), refl))
by_answer (some p) true none x b m n rs most hp hu hx hb size words =
    (ground (arith, nonzero hp, same_self (resource no_area p)), ((λ e. absurd (cc)), refl, refl))
by_answer (some p) true (some u) none b m n rs most hp hu hx hb size words = (
  ground (
    arith,
    nonzero hp,
    nonzero hu,
    same_self (resource no_area p),
    same_self (resource no_registration u),
  ),
  ((λ e. absurd (cc)), refl, (λ e. absurd (cc)), refl),
)
by_answer (some p) true (some u) (some x) none m n rs most hp hu hx hb size words = (
  ground (
    arith,
    nonzero hp,
    nonzero hu,
    nonzero hx,
    same_self (resource no_area p),
    same_self (resource no_registration u),
    same_self (resource no_socket x),
  ),
  by_polls (answering (some p) true (some u) (some x) none m n rs most) _ _ (poll_all most rs)
      (
        (λ e. absurd (cc)),
        refl,
        (λ e. absurd (cc)),
        (λ e. absurd (cc)),
        (λ e. absurd (ground arith), λ e. absurd (e.0 refl)),
      )
      refl (poll_all-Polled rs size words),
)
by_answer (some p) true (some u) (some x) (some b) m n rs most hp hu hx hb size words = (
  ground (
    arith,
    nonzero hp,
    nonzero hu,
    nonzero hx,
    nonzero hb,
    same_self (resource no_area p),
    same_self (resource no_registration u),
    same_self (resource no_socket x),
    same_self (resource no_program b),
  ),
  by_polls (answering (some p) true (some u) (some x) (some b) m n rs most) _ _ (poll_all most rs)
      (
        (λ e. absurd (cc)),
        refl,
        (λ e. absurd (cc)),
        (λ e. absurd (cc)),
        bound_iff x b m (nonzero hx) (nonzero hb),
      )
      refl (poll_all-Polled rs size words),
)

-- Whatever the libraries answer, as long as no pointer that they hand out is null, and where std::string has room for
-- every uint32_t length and for no text of 2^63 bytes: the portal gives back exactly what it was handed, on
-- every way through `main`, the exception out of a poll included. It comes to its polls exactly with memory, a
-- program file, a registration and a socket, whether or not the program could be loaded, the socket being
-- entered in the map exactly if it was and has the map. It then primes the fill ring, and polls all packets up
-- to the signal if none of them is an IPv4 packet shorter than the headers; else it is cut short at the first
-- such packet, having polled those before it.
pub serve-Settled :
    (a : Answers)
    → NotNull a.area
    → NotNull a.umem_created
    → NotNull a.xsk_created
    → NotNull a.object
    → IsMaxSize a.max_size
    → All FitsWord a.received
    → (settle (serve a).0 [] ≡ some []) × Ends a (serve a).1
serve-Settled a hp hu hx hb size words =
    by_answer a.area a.program_exists a.umem_created a.xsk_created a.object a.map_fd a.reserved
      a.received a.max_size hp hu hx hb size words
