-- ===== src/Telemetry.antt =====
-- include/porth/PorthTelemetry.hpp: the statistics block, and the hub that maps it from shared memory.
pub mod Hub
use porth_core.Base.{ℕ}

-- `PorthStats`, all atomics; the default values are 0.
pub record Stats : Type 0 where
  pub total_packets : ℕ  -- uint64_t
  pub total_bytes : ℕ  -- uint64_t
  pub dropped_packets : ℕ  -- uint64_t
  pub current_temp_mc : ℕ  -- uint32_t
  pub last_latency_ns : ℕ  -- uint64_t
  pub max_temp_mc : ℕ  -- uint32_t

abbrev pub fresh_stats : Stats
fresh_stats = record {
  total_packets = 0;
  total_bytes = 0;
  dropped_packets = 0;
  current_temp_mc = 0;
  last_latency_ns = 0;
  max_temp_mc = 0;
}
