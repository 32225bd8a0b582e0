-- ===== src/Handshake/Fate.antt =====
-- Where a run of the handshake can go from a state: to the client's end, or to a reset that was written over.
use porth_core.Base.{ℕ, ◌≡◌, ◌≢◌, ◌⊎◌, inl, inr, ℕ_discrete, refl, arith}
use porth_core.Device.{Device}
use porth_core.Handshake.{
  ctrl_start, ctrl_reset, status_ready, Chip, polling, begun, working, committing, signalling,
  clearing, powered_down, Client, starting, spinning, sampling, resetting, joining, finished,
  System, Step, sees_start, sees_reset, sees_other, write_busy, load_counter, write_counter,
  write_ready, write_idle, write_start, sees_ready, sees_unready, sample, write_reset, join, Reach,
  start, later, powered_on,
}
use porth_core.Handshake.Race.{Agrees, Reach-Inv, powered_on-Inv}

-- A run to the end.
pub record Ends (s : System) : Type 0 where
  pub result : ℕ
  pub last : System
  pub run : Reach s last
  pub end : last.client ≡ finished result

Reach-trans : {s t u : System} → Reach s t → Reach t u → Reach s u
Reach-trans a start = a
Reach-trans a (later b st) = later (Reach-trans a b) st

Ends-after : {s t : System} → Step s t → Ends t → Ends s
Ends-after st e = record {
  result = e.result;
  last = e.last;
  run = Reach-trans (later start st) e.run;
  end = e.end;
}

-- The reset has been written over, or is about to be.
abbrev pub Lost : System → Type 0
Lost s =
    ((n : ℕ) × (s.client ≡ joining n))
    × ((s.chip ≡ clearing)
        ⊎ ((s.chip ≡ polling) × (s.regs.control ≢ ctrl_start) × (s.regs.control ≢ ctrl_reset)))

Step-Lost : {s t : System} → Step s t → Lost s → Lost t
Step-Lost (sees_start s e f) v = absurd (ground arith)
Step-Lost (sees_reset s e f) v = absurd (ground arith)
Step-Lost (sees_other s e f g) v = v
Step-Lost (write_busy s e) v = absurd (ground arith)
Step-Lost (load_counter s e) v = absurd (ground arith)
Step-Lost (write_counter s n e) v = absurd (ground arith)
Step-Lost (write_ready s e) v = absurd (ground arith)
Step-Lost (write_idle s e) v = (v.0, inr (refl, ground arith, ground arith))
Step-Lost (write_start s e) v = absurd (ground arith)
Step-Lost (sees_ready s e f) v = absurd (ground arith)
Step-Lost (sees_unready s e f) v = v
Step-Lost (sample s e) v = absurd (ground arith)
Step-Lost (write_reset s n e) v = absurd (ground arith)
Step-Lost (join s n e f) v = absurd (ground arith)

Reach-Lost : {s t : System} → Reach s t → Lost s → Lost t
Reach-Lost start v = v
Reach-Lost (later r st) v = Step-Lost st (Reach-Lost r v)

-- Both ways a run can go from a state.
abbrev Fate : System → Type 0
Fate s = Ends s ⊎ Lost s

Ends-joined : (s : System) (n : ℕ) → s.client ≡ joining n → s.chip ≡ powered_down → Ends s
Ends-joined s n e f = record {
  result = n;
  last = record s { client = finished n };
  run = later start (join s n e f);
  end = refl;
}

Ends-told :
    (s : System) (n : ℕ)
    → s.client ≡ joining n
    → s.chip ≡ polling
    → s.regs.control ≡ ctrl_reset
    → Ends s
Ends-told s n e f g = Ends-after (sees_reset s f g) (Ends-joined _ n e refl)

Ends-resetting : (s : System) (n : ℕ) → s.client ≡ resetting n → s.chip ≡ polling → Ends s
Ends-resetting s n e f = Ends-after (write_reset s n e) (Ends-told _ n refl f refl)

Ends-sampling : (s : System) → s.client ≡ sampling → s.chip ≡ polling → Ends s
Ends-sampling s e f = Ends-after (sample s e) (Ends-resetting _ _ refl f)

Ends-ready :
    (s : System) → s.client ≡ spinning → s.chip ≡ polling → s.regs.status ≡ status_ready → Ends s
Ends-ready s e f g = Ends-after (sees_ready s e g) (Ends-sampling _ refl f)

Ends-signalling : (s : System) → s.client ≡ spinning → s.chip ≡ signalling → Ends s
Ends-signalling s e f =
    Ends-after (write_ready s f) (Ends-after (write_idle _ refl) (Ends-ready _ e refl refl))

Ends-working : (s : System) → s.client ≡ spinning → s.chip ≡ working → Ends s
Ends-working s e f =
    Ends-after (load_counter s f) (Ends-after (write_counter _ _ refl) (Ends-signalling _ e refl))

Ends-called :
    (s : System) → s.client ≡ spinning → s.chip ≡ polling → s.regs.control ≡ ctrl_start → Ends s
Ends-called s e f g =
    Ends-after (sees_start s f g) (Ends-after (write_busy _ refl) (Ends-working _ e refl))

Ends-starting : (s : System) → s.client ≡ starting → s.chip ≡ polling → Ends s
Ends-starting s e f = Ends-after (write_start s e) (Ends-called _ refl f refl)

Ends-clearing : (s : System) (n : ℕ) → s.client ≡ resetting n → s.chip ≡ clearing → Ends s
Ends-clearing s n e f = Ends-after (write_idle s f) (Ends-resetting _ n e refl)

Ends-unsampled : (s : System) → s.client ≡ sampling → s.chip ≡ clearing → Ends s
Ends-unsampled s e f = Ends-after (write_idle s f) (Ends-sampling _ e refl)

Ends-unseen :
    (s : System) → s.client ≡ spinning → s.chip ≡ clearing → s.regs.status ≡ status_ready → Ends s
Ends-unseen s e f g = Ends-after (write_idle s f) (Ends-ready _ e refl g)

Ends-committing : (s : System) (n : ℕ) → s.client ≡ spinning → s.chip ≡ committing n → Ends s
Ends-committing s n e f = Ends-after (write_counter s n f) (Ends-signalling _ e refl)

Ends-begun : (s : System) → s.client ≡ spinning → s.chip ≡ begun → Ends s
Ends-begun s e f = Ends-after (write_busy s f) (Ends-working _ e refl)

-- A joining client, by what the chip's thread finds.
Fate-joining :
    (s : System) (n : ℕ)
    → s.client ≡ joining n
    → s.chip ≡ polling
    → s.regs.control ≢ ctrl_start
    → Fate s
Fate-joining s n e f g = elim (ℕ_discrete s.regs.control ctrl_reset) [
  | yes same ↦ inl (Ends-told s n e f same)
  | no other ↦ inr ((n, e), inr (f, g, other))
]

Fate-of :
    (c : ℕ) (regs : Device) (client : Client) (chip : Chip)
    → Agrees c regs client chip
    → Fate (record { regs = regs; chip = chip; client = client })
Fate-of c regs starting polling a = inl (Ends-starting _ refl refl)
Fate-of c regs starting _ a = elim a [ ]
Fate-of c regs spinning polling (inl a) = inl (Ends-called _ refl refl a.0)
Fate-of c regs spinning polling (inr a) = inl (Ends-ready _ refl refl a.1.1)
Fate-of c regs spinning begun a = inl (Ends-begun _ refl refl)
Fate-of c regs spinning working a = inl (Ends-working _ refl refl)
Fate-of c regs spinning (committing n) a = inl (Ends-committing _ n refl refl)
Fate-of c regs spinning signalling a = inl (Ends-signalling _ refl refl)
Fate-of c regs spinning clearing a = inl (Ends-unseen _ refl refl a.1)
Fate-of c regs spinning powered_down a = elim a [ ]
Fate-of c regs sampling polling a = inl (Ends-sampling _ refl refl)
Fate-of c regs sampling clearing a = inl (Ends-unsampled _ refl refl)
Fate-of c regs sampling _ a = elim a [ ]
Fate-of c regs (resetting n) polling a = inl (Ends-resetting _ n refl refl)
Fate-of c regs (resetting n) clearing a = inl (Ends-clearing _ n refl refl)
Fate-of c regs (resetting n) _ a = elim a [ ]
Fate-of c regs (joining n) polling a = Fate-joining _ n refl refl a.1
Fate-of c regs (joining n) clearing a = inr ((n, refl), inl refl)
Fate-of c regs (joining n) powered_down a = inl (Ends-joined _ n refl refl)
Fate-of c regs (joining n) _ a = elim a [ ]
Fate-of c regs (finished n) powered_down a =
    inl (record { result = n; last = _; run = start; end = refl })
Fate-of c regs (finished n) _ a = elim a [ ]

-- From every state that the two threads can reach, either the client can still come to its end, or its reset
-- command has been written over or is about to be.
pub comes_through : (regs : Device) {s : System} → Reach (powered_on regs) s → Ends s ⊎ Lost s
comes_through regs {s} r =
    Fate-of regs.counter s.regs s.client s.chip (Reach-Inv (powered_on-Inv regs) r).agrees

-- Once the reset is written over, or the chip is about to write over it, the client never comes out of
-- its join, whatever the threads do.
pub stays_joining : {s t : System} (result : ℕ) → Lost s → Reach s t → t.client ≢ finished result
stays_joining result v r e = ground (arith, Reach-Lost r v, e)

-- Over every region the two threads can reach a state in which the reset is written over or is about to be.
pub loses_reset : (regs : Device) → (s : System) × Reach (powered_on regs) s × Lost s
loses_reset regs = (
  _,
  later
      (later
        (later
          (later
            (later
              (later
                (later (later (later start (write_start _ refl)) (sees_start _ refl refl))
                  (write_busy _ refl))
                (load_counter _ refl))
              (write_counter _ _ refl))
            (write_ready _ refl))
          (sees_ready _ refl refl))
        (sample _ refl))
      (write_reset _ _ refl),
  ((_, refl), inl refl),
)
