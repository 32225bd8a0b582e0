-- ===== src/Portal/Session/Polls.antt =====
-- The loop of polls of examples/network_portal_demo.cpp: how far it comes.
use mathlib.Core.Path.{subst}
use porth_core.Base.{
  All, ℕ, ◌+◌, ◌^◌, ◌<◌, ◌≡◌, refl, sym, ap, ◌∙◌, arith, Bool, true, false, Option, none, some,
  List, [], ◌∷◌, ◌++◌, Bool-cases, inl, inr,
}
use porth_core.Portal.{Received, poll_rx}
use porth_core.Portal.Frames.{IsMaxSize, is_short, poll_rx-returned}
use porth_core.Portal.Session.{poll_all}

-- A length is a uint32_t.
abbrev pub FitsWord : Option Received → Type 0
FitsWord none = Unit
FitsWord (some r) = r.len < 2 ^ 32

-- A poll that receives nothing, or a packet that is not short.
abbrev pub GoesWell : Option Received → Type 0
GoesWell none = Unit
GoesWell (some r) = is_short r ≡ false

-- The packets among what the polls receive.
abbrev pub packets : List (Option Received) → ℕ
packets [] = 0
packets (none ∷ rs) = packets rs
packets (some r ∷ rs) = 1 + packets rs

-- The first short packet, with what the polls before it receive.
pub record Cut (rs : List (Option Received)) (polled : ℕ) : Type 0 where
  pub before : List (Option Received)
  pub packet : Received
  pub after : List (Option Received)
  pub parts : rs ≡ before ++ some packet ∷ after
  pub well : All GoesWell before
  pub short : is_short packet ≡ true
  pub counted : polled ≡ packets before

-- The loop comes to the signal if no packet is short, and has then polled all packets; else it is cut short at the first
-- short one, and has polled those before it.
abbrev pub Polled : List (Option Received) → Bool × ℕ → Type 0
Polled rs (true, polled) = All GoesWell rs × (polled ≡ packets rs)
Polled rs (false, polled) = Cut rs polled

unmoved :
    (rs : List (Option Received)) (x : Bool × ℕ) → Polled rs x → Polled (none ∷ rs) (x.0, 0 + x.1)
unmoved rs (true, n) (well, counted) = ((tt, well), omega (arith, counted))
unmoved rs (false, n) c = record {
  before = none ∷ c.before;
  packet = c.packet;
  after = c.after;
  parts = ap (λ l. none ∷ l) c.parts;
  well = (tt, c.well);
  short = c.short;
  counted = omega (arith, c.counted);
}

one_more :
    (r : Received) (rs : List (Option Received)) (x : Bool × ℕ)
    → is_short r ≡ false
    → Polled rs x
    → Polled (some r ∷ rs) (x.0, 1 + x.1)
one_more r rs (true, n) e (well, counted) = ((e, well), ap (λ k. 1 + k) counted)
one_more r rs (false, n) e c = record {
  before = some r ∷ c.before;
  packet = c.packet;
  after = c.after;
  parts = ap (λ l. some r ∷ l) c.parts;
  well = (e, c.well);
  short = c.short;
  counted = ap (λ k. 1 + k) c.counted;
}

-- A poll, by what it returns.
poll_all-step :
    (max_size : ℕ) (r : Option Received) (rs : List (Option Received)) {x : Option ℕ}
    → (poll_rx max_size r).returned ≡ x
    → poll_all max_size (r ∷ rs) ≡ elim x [
      | none ↦ (false, 0)
      | some n ↦ ((poll_all max_size rs).0, n + (poll_all max_size rs).1)
    ]
unfolding poll_all
poll_all-step max_size r rs e =
    ap
      (λ x. elim x [
        | none ↦ (false, 0)
        | some n ↦ ((poll_all max_size rs).0, n + (poll_all max_size rs).1)
      ])
      e

pub poll_all-Polled :
    {max_size : ℕ} (rs : List (Option Received))
    → IsMaxSize max_size
    → All FitsWord rs
    → Polled rs (poll_all max_size rs)
unfolding poll_all poll_rx
poll_all-Polled [] m h = (tt, refl)
poll_all-Polled {max_size} (none ∷ rs) m h =
    unmoved rs (poll_all max_size rs) (poll_all-Polled rs m h.1)
poll_all-Polled {max_size} (some r ∷ rs) m h =
    let answer = poll_rx-returned r m h.0 in
    elim (Bool-cases (is_short r)) [
      | inl e ↦
          let stops = poll_all-step max_size (some r) rs {x = none} (answer ∙ ground (arith, e)) in
          subst (Polled (some r ∷ rs)) (sym stops) (record {
            before = [];
            packet = r;
            after = rs;
            parts = refl;
            well = tt;
            short = e;
            counted = refl;
          })
      | inr e ↦
          let more = poll_all-step max_size (some r) rs {x = some 1} (answer ∙ ground (arith, e)) in
          subst (Polled (some r ∷ rs)) (sym more)
            (one_more r rs (poll_all max_size rs) e (poll_all-Polled rs m h.1))
    ]
