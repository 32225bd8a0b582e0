-- ===== src/Resource/Extra.antt =====
-- One resource more than is accounted for: it is in nobody's way, and is left at the end.
use mathlib.Core.Path.{subst}
use porth_core.Base.{
  suc, ◌≡◌, refl, ap, arith, List, [], ◌∷◌, ◌++◌, some, length, Option-cases, Bool-cases, inl, inr,
}
use porth_core.Resource.{Resource, Event, acquire, release, same, give_back, settle, settle-around}

-- The first list has one resource more than the second.
pub data Extra : List Resource → List Resource → Type 0 where
  here : (r : Resource) {xs : List Resource} → Extra (r ∷ xs) xs
  there : (x : Resource) {ys xs : List Resource} → Extra ys xs → Extra (x ∷ ys) (x ∷ xs)

pub length-Extra : {ys xs : List Resource} → Extra ys xs → length ys ≡ suc (length xs)
length-Extra (here r) = refl
length-Extra (there x e) = ap suc (length-Extra e)

given_back-Extra :
    (q : Resource) (xs : List Resource) {left : List Resource}
    → give_back q xs ≡ some left
    → Extra xs left
given_back-Extra q [] e = absurd (cc)
given_back-Extra q (x ∷ xs) {left} e = elim (Bool-cases (same q x)) [
  | inl found ↦
      let rest : xs ≡ left = ground (arith, e, found) in subst (Extra (x ∷ xs)) rest (here x)
  | inr apart ↦ elim (Option-cases (give_back q xs)) [
    | inl f ↦ absurd (ground (arith, e, apart, f))
    | inr (rest, f) ↦
        let whole : x ∷ rest ≡ left = ground (arith, e, apart, f) in
        subst (Extra (x ∷ xs)) whole (there x (given_back-Extra q xs f))
  ]
]

give_back-Extra :
    (q : Resource) {ys xs left : List Resource}
    → Extra ys xs
    → give_back q xs ≡ some left
    → (more : List Resource) × (give_back q ys ≡ some more) × Extra more left
give_back-Extra q {xs = xs} {left = left} (here r) e = elim (Bool-cases (same q r)) [
  | inl found ↦ (xs, ground (arith, found), given_back-Extra q xs e)
  | inr apart ↦ (r ∷ left, ground (arith, apart, e), here r)
]
give_back-Extra q {left = left} (there x {ys} {xs} h) e = elim (Bool-cases (same q x)) [
  | inl found ↦
      let rest : xs ≡ left = ground (arith, e, found) in
      (ys, ground (arith, found), subst (Extra ys) rest h)
  | inr apart ↦ elim (Option-cases (give_back q xs)) [
    | inl f ↦ absurd (ground (arith, e, apart, f))
    | inr (rest, f) ↦
        let (more, g, k) = give_back-Extra q h f in
        let whole : x ∷ rest ≡ left = ground (arith, e, apart, f) in
        (x ∷ more, ground (arith, apart, g), subst (Extra (x ∷ more)) whole (there x k))
  ]
]

-- Events that settle with some resources settle with one more, and leave one more.
pub settle-Extra :
    (es : List Event) {ys xs left : List Resource}
    → Extra ys xs
    → settle es xs ≡ some left
    → (more : List Resource) × (settle es ys ≡ some more) × Extra more left
settle-Extra [] {ys = ys} {xs = xs} {left = left} h e =
    let same_ : xs ≡ left = ground arith in (ys, refl, subst (Extra ys) same_ h)
settle-Extra (acquire r ∷ es) h e = settle-Extra es (there r h) e
settle-Extra (release r ∷ es) {ys} {xs} {left} h e = elim (Option-cases (give_back r xs)) [
  | inl f ↦ absurd (ground (arith, e, f))
  | inr (rest, f) ↦
      let (more, g, k) = give_back-Extra r h f in
      let e' : settle es rest ≡ some left = ground (arith, e, f) in
      let (last, i, l) = settle-Extra es k e' in (last, rw (g, settle) i, l)
]

-- What settles in two parts settles up to the first.
pub settle-split :
    (es fs : List Event) (held : List Resource) {left : List Resource}
    → settle (es ++ fs) held ≡ some left
    → (between : List Resource) × (settle es held ≡ some between) × (settle fs between ≡ some left)
settle-split [] fs held e = (held, refl, e)
settle-split (acquire r ∷ es) fs held e = settle-split es fs (r ∷ held) e
settle-split (release r ∷ es) fs held {left} e = elim (Option-cases (give_back r held)) [
  | inl f ↦ absurd (ground (arith, e, f))
  | inr (rest, f) ↦
      let e' : settle (es ++ fs) rest ≡ some left = ground (arith, e, f) in
      let (between, g, h) = settle-split es fs rest e' in (between, rw (f, settle) g, h)
]

-- An object's life inside another's that gives back all it took: what the inner leaves is left.
pub settle-inside :
    (before inner after : List Event)
    → settle (before ++ after) [] ≡ some []
    → settle inner [] ≡ some []
    → settle (before ++ (inner ++ after)) [] ≡ some []
settle-inside before inner after outer i =
    let (held, b, a) = settle-split before after [] outer in settle-around before inner after b i a

-- The same with one resource left inside.
pub settle-leaky :
    (before inner after : List Event) {r : Resource}
    → settle (before ++ after) [] ≡ some []
    → settle inner [] ≡ some (r ∷ [])
    → (left : List Resource) × (settle (before ++ (inner ++ after)) [] ≡ some left)
      × (length left ≡ 1)
settle-leaky before inner after {r} outer i =
    let (held, b, a) = settle-split before after [] outer in
    let (left, e, extra) = settle-Extra after (here r {xs = held}) a in
    (left, settle-around before inner after b i e, length-Extra extra)
