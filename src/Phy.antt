-- ===== src/Phy.antt =====
-- include/porth/PorthSimPHY.hpp: the physical layer's thermal inertia and its delays. Doubles enter by
-- the interface `Float`, random numbers as the values that the distributions return.
pub mod Delay
pub mod Thermal
use porth_core.Base.{ℕ, ◌+◌, ◌-◌, ◌/◌, ◌%◌, ◌^◌, Bool, ltb, if◌then◌else◌, u32, u64}
use porth_core.Base.Int.{ℤ, pos, negsuc, ltb_ℤ}

-- What the code uses of `double`: the literal m * 10^-k, products, `<`, and the casts from and to
-- uint64_t.
pub record Float : Type 1 where
  pub F : Type 0
  pub decimal : ℕ → ℕ → F
  pub mul : F → F → F
  pub lt : F → F → Bool
  pub from_u64 : ℕ → F
  pub to_u64 : F → ℕ

abbrev pub thermal_threshold_mc : ℕ
thermal_threshold_mc = 40000

abbrev pub mc_to_c_divisor : ℕ
mc_to_c_divisor = 1000

abbrev pub fec_retry_spike_ns : ℕ
fec_retry_spike_ns = 500

abbrev pub default_fec_penalty_ns : ℕ
default_fec_penalty_ns = 5

abbrev pub default_base_temp_mc : ℕ
default_base_temp_mc = 25000

abbrev pub standard_snr_db : ℤ
standard_snr_db = pos 3000

abbrev pub snr_critical_threshold : ℤ
snr_critical_threshold = pos 2000

abbrev pub heating_step_mc : ℕ
heating_step_mc = 25

abbrev pub cooling_step_mc : ℕ
cooling_step_mc = 15

-- The integer fields of `PorthSimPHY`. `m_fec_error_rate` and `m_cycles_per_ns` are doubles that no
-- method changes: they are arguments below.
pub record Phy : Type 0 where
  pub base_delay_ns : ℕ  -- uint64_t
  pub jitter_ns : ℕ  -- uint64_t
  pub fec_penalty_ns : ℕ  -- uint64_t
  pub current_temp_mc : ℕ  -- std::atomic<uint32_t>

-- The constructor.
abbrev pub new_phy : ℕ → ℕ → Phy
new_phy base_ns jitter_init = record {
  base_delay_ns = base_ns;
  jitter_ns = jitter_init;
  fec_penalty_ns = default_fec_penalty_ns;
  current_temp_mc = default_base_temp_mc;
}

unfoldable pub calculate_thermal_jitter : Phy → ℕ
calculate_thermal_jitter p =
    let temp = p.current_temp_mc in
    if ltb thermal_threshold_mc temp then (temp - thermal_threshold_mc) / mc_to_c_divisor else 0

-- uint32_t sums and differences.
unfoldable pub update_thermal_load : ℕ → Phy → Phy
update_thermal_load temp_mc p =
    let current = p.current_temp_mc in
    if ltb current temp_mc
    then record p { current_temp_mc = u32 (current + heating_step_mc) }
    else if ltb temp_mc current
    then record p { current_temp_mc = u32 (current + 2 ^ 32 - cooling_step_mc) }
    else p

unfoldable pub set_config : ℕ → ℕ → Phy → Phy
set_config base jitter p = record p { base_delay_ns = base; jitter_ns = jitter }

-- `static_cast<uint64_t>` of an int64_t.
abbrev pub cast_u64 : ℤ → ℕ
cast_u64 (pos n) = u64 n
cast_u64 (negsuc n) = u64 (2 ^ 64 - 1 - n)

module _ (fl : Float) (fec_error_rate cycles_per_ns : fl.F) where
  open fl use {F, decimal, mul, lt, from_u64, to_u64}

  -- `draw` is what `m_error_dist(m_gen)` returns.
  unfoldable pub get_fec_penalty : ℤ → F → ℕ
  get_fec_penalty current_snr draw =
      let error_rate =
        if ltb_ℤ current_snr snr_critical_threshold
        then mul fec_error_rate (decimal 10 0)
        else fec_error_rate in
      if lt draw error_rate then fec_retry_spike_ns else 0

  -- Steps 1 and 2 of `apply_protocol_delay`, in uint64_t; `jitter` is what `m_jitter_dist(m_gen)` returns.
  unfoldable pub total_delay_ns : Phy → ℤ → ℤ → F → ℕ
  total_delay_ns p current_snr jitter draw =
      let random_jitter = if ltb 0 p.jitter_ns then jitter else pos 0 in
      let total = u64 (p.base_delay_ns + p.fec_penalty_ns + cast_u64 random_jitter) in
      let total' = u64 (total + calculate_thermal_jitter p) in
      u64 (total' + get_fec_penalty current_snr draw)

  -- Step 3: the cycles to wait. Clock.wait_cycles is the wait.
  unfoldable pub target_cycles : Phy → ℤ → ℤ → F → ℕ
  target_cycles p current_snr jitter draw =
      to_u64 (mul (from_u64 (total_delay_ns p current_snr jitter draw)) cycles_per_ns)
