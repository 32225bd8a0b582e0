-- ===== src/Demo/Start.antt =====
-- The handshake of the demonstration: how long it polls, and what it decides.
use porth_core.Base.{
  ℕ, zero, suc, ◌+◌, ◌≤◌, ◌<◌, ◌≡◌, ◌≢◌, ◌⊎◌, inl, inr, refl, arith, not, ◌==◌, ℕ_discrete,
}
use porth_core.Demo.{handshake}

-- How the handshake ends that begins at load `n` with `left` to the limit, and what load `j` has read if the loop has
-- made it and gone on.
pub record Shaken (status : ℕ → ℕ) (left n j : ℕ) : Type 0 where
  pub last : ℕ
  pub from : n ≤ last
  pub bound : last ≤ n + left
  pub result : handshake status left n ≡ (last + 2, not (status (last + 1) == 0))
  pub stops : (last ≡ n + left) ⊎ (status last ≢ 0)
  pub unready : (j < n) ⊎ ((last ≤ j) ⊎ (status j ≡ 0))

Shaken-at :
    (status : ℕ → ℕ) (left n j : ℕ)
    → handshake status left n ≡ (n + 2, not (status (n + 1) == 0))
    → (n ≡ n + left) ⊎ (status n ≢ 0)
    → Shaken status left n j
Shaken-at status left n j e s = record {
  last = n;
  from = omega arith;
  bound = omega arith;
  result = e;
  stops = s;
  unready = ground arith;
}

-- The poll of the status register stops at the first load that is not 0, or at the limit, and one load more
-- decides: with the limit of `left` it makes at most `left` + 2 loads, and finds the chip ready exactly if that
-- last one is not 0.
pub handshake-Shaken : (status : ℕ → ℕ) (left n j : ℕ) → Shaken status left n j
unfolding handshake
handshake-Shaken status zero n j = Shaken-at status zero n j refl (inl (omega arith))
handshake-Shaken status (suc left) n j = elim (ℕ_discrete (status n) 0) [
  | yes e ↦
      let ih = handshake-Shaken status left (n + 1) j in
      record {
        last = ih.last;
        from = omega (arith, ih.from);
        bound = omega (arith, ih.bound);
        result = ground (arith, e, ih.result);
        stops = ground (arith, ih.stops);
        unready = elim (ℕ_discrete j n) [
          | yes same ↦ inr (inr (rw same e))
          | no apart ↦ ground (arith, ih.unready, apart)
        ];
      }
  | no e ↦ Shaken-at status (suc left) n j (ground (arith, e)) (inr e)
]
