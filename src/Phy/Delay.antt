-- ===== src/Phy/Delay.antt =====
-- The delay that `apply_protocol_delay` computes: the exact sum, and where the sum leaves uint64_t.
use porth_core.Base.{ℕ, ◌+◌, ◌^◌, ◌≤◌, ◌<◌, ◌≡◌, arith}
use porth_core.Base.Int.{ℤ, negsuc, pos_part, neg_part}
use porth_core.Phy.{Float, Phy, total_delay_ns, calculate_thermal_jitter, get_fec_penalty}

pub thermal_jitter-le :
    (p : Phy) → p.current_temp_mc < 2 ^ 32 → calculate_thermal_jitter p ≤ 4294927
unfolding calculate_thermal_jitter
thermal_jitter-le p h = ground arith

module _ (fl : Float) (fec_error_rate cycles_per_ns : fl.F) where
  open fl use {F}

  -- A retry costs 500 ns or nothing.
  pub fec_penalty-le :
      (snr : ℤ) (draw : F) → get_fec_penalty fl fec_error_rate cycles_per_ns snr draw ≤ 500
  unfolding get_fec_penalty
  fec_penalty-le snr draw = ground arith

  -- The sum of the parts, where the jitter is off or drawn from its range, the range does not exceed
  -- the fixed delays, and the fixed delays are below 2^62 ns: no step of the computation wraps.
  pub delay_exact :
      (p : Phy) (snr jitter : ℤ) (draw : F)
      → p.current_temp_mc < 2 ^ 32
      → p.base_delay_ns + p.fec_penalty_ns < 2 ^ 62
      → p.jitter_ns ≤ p.base_delay_ns + p.fec_penalty_ns
      → pos_part jitter ≤ p.jitter_ns
      → neg_part jitter ≤ p.jitter_ns
      → total_delay_ns fl fec_error_rate cycles_per_ns p snr jitter draw + neg_part jitter
        ≡ p.base_delay_ns
          + p.fec_penalty_ns
          + pos_part jitter
          + calculate_thermal_jitter p
          + get_fec_penalty fl fec_error_rate cycles_per_ns snr draw
  unfolding total_delay_ns
  delay_exact p snr jitter draw t b j hi lo =
      ground (arith, thermal_jitter-le p, fec_penalty-le snr draw)

  -- A negative jitter that outweighs everything else wraps round: the delay is then 2^63 ns, some 292
  -- years, or more.
  pub delay_wraps :
      (p : Phy) (snr : ℤ) (m : ℕ) (draw : F)
      → p.current_temp_mc < 2 ^ 32
      → 0 < p.jitter_ns
      → m < 2 ^ 63
      → p.base_delay_ns
          + p.fec_penalty_ns
          + calculate_thermal_jitter p
          + get_fec_penalty fl fec_error_rate cycles_per_ns snr draw
        ≤ m
      → 2 ^ 63 ≤ total_delay_ns fl fec_error_rate cycles_per_ns p snr (negsuc m) draw
  unfolding total_delay_ns
  delay_wraps p snr m draw t j b h = ground (arith, thermal_jitter-le p, fec_penalty-le snr draw)
