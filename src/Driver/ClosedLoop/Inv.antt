-- ===== src/Driver/ClosedLoop/Inv.antt =====
-- What holds between the rounds of the watchdog and the device: how far the temperature can have risen.
use mathlib.Core.Path.{subst}
use porth_core.Base.{
  ℕ, suc, ◌+◌, ◌*◌, ◌≤◌, ◌<◌, ◌≡◌, ◌⊎◌, inl, inr, arith, true, false, some, none, Bool-cases,
  dec_lt, ap, sym, ◌∙◌,
}
use porth_core.Sim.{Sim, Turn, physics_step, next_voltage, target_temp}
use porth_core.Sim.Lattice.{InRange, physics_step-InRange}
use porth_core.Sim.Power.{physics_step-Stepped, rounds_left, rises_by, spends}
use porth_core.Base.{Option}
use porth_core.Driver.Watchdog.{Round}
use porth_core.Driver.Watchdog.{watchdog_loop, watch}
use porth_core.Driver.ClosedLoop.{device, look, act, Closed, look_round, act_round, happen}

-- What the watchdog has loaded: how far the temperature can have risen since.
abbrev pub Recent : ℕ → Option ℕ → Option Round → Type 0
Recent temp none none = Unit
Recent temp none (some r) = ⊥
Recent temp (some m) none = ⊥
Recent temp (some m) (some r) = (r.run ≡ true) × (temp ≤ r.temp + 25 * m)

abbrev pub Older : ℕ → Option ℕ → Type 0
Older n none = Unit
Older n (some m) = m ≤ n

-- The watchdog is on, and the temperature has risen by one heating step a round at most since its last look.
pub record On (n : ℕ) (m : Option ℕ) (c : Closed) : Type 0 where
  pub flag : c.driver.run_watchdog ≡ true
  pub low : c.sim.phy.current_temp_mc ≤ 45000 + 25 * n
  pub since : Recent c.sim.phy.current_temp_mc m c.seen

-- The power is off, and the rise that the voltage can still cause is bounded.
pub record Off (k : ℕ) (c : Closed) : Type 0 where
  pub control : c.sim.dev.control ≡ 0
  pub bound :
      c.sim.phy.current_temp_mc + 25 * rounds_left c.sim.dev.gan_voltage ≤ 45000 + 25 * (k + 101)

pub record Guarded (k n : ℕ) (m : Option ℕ) (c : Closed) : Type 0 where
  pub range : InRange c.sim
  pub shown : c.sim.dev.laser_temp ≡ c.sim.phy.current_temp_mc
  pub recent : n ≤ k
  pub older : Older n m
  pub state : On n m c ⊎ Off k c

abbrev pub next : Option ℕ → Option ℕ
next none = none
next (some m) = some (suc m)

Recent-next :
    (a b : ℕ) (m : Option ℕ) (r : Option Round) → b ≤ a + 25 → Recent a m r → Recent b (next m) r
Recent-next a b none none h v = tt
Recent-next a b none (some r) h v = v
Recent-next a b (some m) none h v = v
Recent-next a b (some m) (some r) h v = (v.0, omega (arith, h, v.1))

Older-next : (n : ℕ) (m : Option ℕ) → Older n m → Older (suc n) (next m)
Older-next n none v = tt
Older-next n (some m) v = omega (arith, v)

-- A round of the device warms by one heating step at most.
warms :
    (x : Turn) (s : Sim)
    → InRange s
    → (physics_step x.memory x.draw s).0.phy.current_temp_mc ≤ s.phy.current_temp_mc + 25
warms x s v = elim (physics_step-Stepped x.memory x.draw s).flow [
  | inl still ↦ omega (arith, ap (λ p. p.current_temp_mc) still.phy)
  | inr moved ↦ omega (
    arith,
    ap (λ p. p.current_temp_mc) moved.phy,
    rises_by (target_temp (next_voltage s.dev)) s.phy v.warm v.cool,
  )
]

shows :
    (x : Turn) (s : Sim)
    → s.dev.laser_temp ≡ s.phy.current_temp_mc
    → let t = (physics_step x.memory x.draw s).0 in t.dev.laser_temp ≡ t.phy.current_temp_mc
shows x s e = elim (physics_step-Stepped x.memory x.draw s).flow [
  | inl still ↦ still.shown ∙ e ∙ sym (ap (λ p. p.current_temp_mc) still.phy)
  | inr moved ↦ moved.shown
]

device-Off : {k : ℕ} {c : Closed} (x : Turn) → InRange c.sim → Off k c → Off k (happen (device x) c)
unfolding happen
device-Off {k} {c} x v off =
    let stepped = physics_step-Stepped x.memory x.draw c.sim in
    record {
      control = stepped.control ∙ off.control;
      bound = elim stepped.flow [
        | inl still ↦ omega (arith, ap (λ p. p.current_temp_mc) still.phy, still.volt, off.bound)
        | inr moved ↦ omega (
          arith,
          ap (λ p. p.current_temp_mc) moved.phy,
          moved.volt,
          off.bound,
          spends c.sim.dev c.sim.phy off.control v.warm v.cool,
        )
      ];
    }

device-On :
    {n : ℕ} {m : Option ℕ} {c : Closed} (x : Turn)
    → InRange c.sim
    → On n m c
    → On (suc n) (next m) (happen (device x) c)
unfolding happen
device-On {n} {m} {c} x v on =
    let up = warms x c.sim v in
    record {
      flag = on.flag;
      low = omega (arith, up, on.low);
      since = Recent-next _ _ m c.seen up on.since;
    }

pub device-Guarded :
    {k n : ℕ} {m : Option ℕ} {c : Closed} (x : Turn)
    → n < k
    → Guarded k n m c
    → Guarded k (suc n) (next m) (happen (device x) c)
unfolding happen
device-Guarded {k} {n} {m} {c} x h g = record {
  range = physics_step-InRange x.memory x.draw c.sim g.range;
  shown = shows x c.sim g.shown;
  recent = h;
  older = Older-next n m g.older;
  state = elim g.state [
    | inl on ↦ inl (device-On x g.range on)
    | inr off ↦ inr (device-Off x g.range off)
  ];
}

pub look-Guarded :
    {k n : ℕ} {c : Closed} → Guarded k n none c → Guarded k n (some 0) (happen look c)
unfolding happen look_round
look-Guarded g = record {
  range = g.range;
  shown = g.shown;
  recent = g.recent;
  older = omega arith;
  state = elim g.state [
    | inl on ↦
        inl (record { flag = on.flag; low = on.low; since = (on.flag, omega (arith, g.shown)) })
    | inr off ↦ inr (record { control = off.control; bound = off.bound })
  ];
}

-- What the watchdog does with what it has loaded: it trips, or changes no register and not its flag.
act_cases :
    (c : Closed) (r : Round)
    → c.seen ≡ some r
    → ((happen act c).sim ≡ record (c.sim) { dev = record (c.sim.dev) { control = 0 } })
      ⊎ (((happen act c).sim ≡ c.sim)
          × ((happen act c).driver.run_watchdog ≡ c.driver.run_watchdog)
          × ((happen act c).seen ≡ none)
          × ((r.run ≡ false) ⊎ (r.temp ≤ 45000)))
unfolding happen act_round watchdog_loop watch
act_cases c r e = elim (Bool-cases r.run) [
  | inr off ↦ inr (ground (arith, off, e), ground (arith, off, e), ground (arith, off, e), inl off)
  | inl on ↦ elim (dec_lt 45000 r.temp) [
    | yes hot ↦ inl (ground (arith, on, hot, e))
    | no fine ↦ inr (
      ground (arith, on, fine, e),
      ground (arith, on, fine, e),
      ground (arith, on, fine, e),
      inr (omega arith),
    )
  ]
]

-- The bound when the watchdog trips.
tripped-Off :
    {k n : ℕ} {m : Option ℕ} {c d : Closed}
    → Guarded k n m c
    → d.sim ≡ record (c.sim) { dev = record (c.sim.dev) { control = 0 } }
    → Off k d
tripped-Off g e =
    let temp = ap (λ s. s.phy.current_temp_mc) e in
    let volt = ap (λ s. s.dev.gan_voltage) e in
    record {
      control = ap (λ s. s.dev.control) e;
      bound = elim g.state [
        | inl on ↦ omega (arith, temp, volt, on.low, g.recent, g.range.volt)
        | inr off ↦ omega (arith, temp, volt, off.bound)
      ];
    }

same-Off : {k : ℕ} {c d : Closed} → d.sim ≡ c.sim → Off k c → Off k d
same-Off e off = record {
  control = ap (λ s. s.dev.control) e ∙ off.control;
  bound =
      omega (arith, ap (λ s. s.phy.current_temp_mc) e, ap (λ s. s.dev.gan_voltage) e, off.bound);
}

-- A watchdog that has not tripped: what it saw was cool, so that the count starts at its look.
cool-On :
    {n m : ℕ} {c d : Closed} (r : Round)
    → c.seen ≡ some r
    → d.sim ≡ c.sim
    → d.driver.run_watchdog ≡ c.driver.run_watchdog
    → d.seen ≡ none
    → (r.run ≡ false) ⊎ (r.temp ≤ 45000)
    → On n (some m) c
    → On m none d
cool-On {n} {m} {c} {d} r e same flag none_seen why on =
    let since = subst (Recent c.sim.phy.current_temp_mc (some m)) e on.since in
    record {
      flag = flag ∙ on.flag;
      low = ground (arith, ap (λ s. s.phy.current_temp_mc) same, why, since);
      since = subst (Recent d.sim.phy.current_temp_mc none) (sym none_seen) tt;
    }

pub act-Guarded :
    {k n m : ℕ} {c : Closed} (r : Round)
    → c.seen ≡ some r
    → Guarded k n (some m) c
    → Guarded k m none (happen act c)
act-Guarded {k} {n} {m} {c} r e g = elim (act_cases c r e) [
  | inl trip ↦ record {
    range =
        subst InRange (sym trip)
          (record { volt = g.range.volt; warm = g.range.warm; cool = g.range.cool });
    shown = ground (arith, trip, g.shown);
    recent = omega (arith, g.recent, g.older);
    older = tt;
    state = inr (tripped-Off g trip);
  }
  | inr (same, flag, none_seen, why) ↦ record {
    range = subst InRange (sym same) g.range;
    shown = ground (arith, same, g.shown);
    recent = omega (arith, g.recent, g.older);
    older = tt;
    state = elim g.state [
      | inl on ↦ inl (cool-On r e same flag none_seen why on)
      | inr off ↦ inr (same-Off same off)
    ];
  }
]

-- An act of a watchdog that has loaded nothing is none.
pub idle-Guarded :
    {k n m : ℕ} {c : Closed}
    → c.seen ≡ none
    → Guarded k n (some m) c
    → Guarded k m none (happen act c)
unfolding happen act_round
idle-Guarded {k} {n} {m} {c} e g =
    let same : (happen act c).sim ≡ c.sim = ground (arith, e) in
    record {
      range = subst InRange (sym same) g.range;
      shown = ground (arith, same, g.shown);
      recent = omega (arith, g.recent, g.older);
      older = tt;
      state = elim g.state [
        | inl on ↦ absurd (subst (Recent c.sim.phy.current_temp_mc (some m)) e on.since)
        | inr off ↦ inr (same-Off same off)
      ];
    }
