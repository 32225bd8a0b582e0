-- ===== src/Resource.antt =====
-- What the classes of include/porth take from the operating system and its libraries and give back: the ledger by
-- which constructors and destructors are checked for leaks and double releases.
pub mod Extra
use porth_core.Base.{
  ℕ, ◌≡◌, List, [], ◌∷◌, ◌++◌, Option, none, some, Bool, true, ◌==◌, ◌&&◌, if◌then◌else◌, arith,
  Option-cases, inl, inr, Bool-cases, ◌∙◌,
}

-- What was acquired decides which call releases it: numa_free, free, munmap, close, xsk_socket__delete,
-- xsk_umem__delete, bpf_object__close.
pub data Kind : Type 0 where
  numa heap mapping file socket umem bpf_object : Kind

pub record Resource : Type 0 where
  pub kind : Kind
  pub handle : ℕ
  pub size : ℕ

pub data Event : Type 0 where
  acquire : Resource → Event
  release : Resource → Event

abbrev kind_code : Kind → ℕ
kind_code numa = 0
kind_code heap = 1
kind_code mapping = 2
kind_code file = 3
kind_code socket = 4
kind_code umem = 5
kind_code bpf_object = 6

abbrev pub same : Resource → Resource → Bool
same a b = kind_code a.kind == kind_code b.kind && (a.handle == b.handle && a.size == b.size)

-- A resource matches itself.
pub same_self : (r : Resource) → same r r ≡ true
same_self r = ground arith

-- Takes one resource off the list; `none` if it is not there.
abbrev pub give_back : Resource → List Resource → Option (List Resource)
give_back r [] = none
give_back r (x ∷ xs) =
    let rest = give_back r xs in
    if same r x then some xs else elim rest [ none ↦ none | some ys ↦ some (x ∷ ys) ]

-- What is held after the events, starting from what was held before them; `none` is a release of what
-- is not held, such as a double free or the wrong call for the kind.
abbrev pub settle : List Event → List Resource → Option (List Resource)
settle [] held = some held
settle (acquire r ∷ es) held = settle es (r ∷ held)
settle (release r ∷ es) held = elim (give_back r held) [
  | none ↦ none
  | some held' ↦ settle es held'
]

-- Events after others start from what the others leave held.
pub settle-append :
    (es fs : List Event) (held : List Resource) {left : List Resource}
    → settle es held ≡ some left
    → settle (es ++ fs) held ≡ settle fs left
settle-append [] fs held e = ground (arith, e)
settle-append (acquire r ∷ es) fs held e = settle-append es fs (r ∷ held) e
settle-append (release r ∷ es) fs held {left} e = elim (Option-cases (give_back r held)) [
  | inl none_held ↦ absurd (ground (arith, none_held))
  | inr (held', f) ↦
      let e' : settle es held' ≡ some left = ground (arith, f, e) in
      rw (f, settle) (settle-append es fs held' e')
]

-- What others hold is not in the way of giving back one's own.
give_back-frame :
    (r : Resource) (held rest : List Resource) {left : List Resource}
    → give_back r held ≡ some left
    → give_back r (held ++ rest) ≡ some (left ++ rest)
give_back-frame r [] rest e = absurd (ground arith)
give_back-frame r (x ∷ xs) rest {left} e = elim (Bool-cases (same r x)) [
  | inl here ↦ ground (arith, e, here)
  | inr apart ↦ elim (Option-cases (give_back r xs)) [
    | inl none_held ↦ absurd (ground (arith, e, apart, none_held))
    | inr (held', f) ↦ ground (arith, e, apart, f, give_back-frame r xs rest f)
  ]
]

-- Events that settle on their own do so also while more is held.
pub settle-frame :
    (es : List Event) (held rest : List Resource) {left : List Resource}
    → settle es held ≡ some left
    → settle es (held ++ rest) ≡ some (left ++ rest)
settle-frame [] held rest e = ground (arith, e)
settle-frame (acquire r ∷ es) held rest e = settle-frame es (r ∷ held) rest e
settle-frame (release r ∷ es) held rest {left} e = elim (Option-cases (give_back r held)) [
  | inl none_held ↦ absurd (ground (arith, none_held, e))
  | inr (held', f) ↦
      let e' : settle es held' ≡ some left = ground (arith, f, e) in
      rw (give_back-frame r held rest f, settle) (settle-frame es held' rest e')
]

-- An object's life in the middle of another's: `before` leaves `held`, `inner` gives back all of its own and leaves
-- `kept`, and `after` gives `held` back.
pub settle-around :
    (before inner after : List Event) {held kept left : List Resource}
    → settle before [] ≡ some held
    → settle inner [] ≡ some kept
    → settle after (kept ++ held) ≡ some left
    → settle (before ++ (inner ++ after)) [] ≡ some left
settle-around before inner after {held} b i a =
    settle-append before (inner ++ after) [] b
    ∙ settle-append inner after held (settle-frame inner [] held i)
    ∙ a
