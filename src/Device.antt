-- ===== src/Device.antt =====
-- include/porth/PorthDeviceLayout.hpp and PorthRegister.hpp: the register file of the hardware, as the
-- values of its eight registers. Device/Mmio has the bytes behind them.
pub mod Mmio
pub mod Layout
use porth_core.Base.{ℕ, zero, ◌+◌, ◌-◌, ◌*◌, ◌/◌, List, [], ◌∷◌}
use porth_core.Base.Int.{ℤ}

-- `PorthDeviceLayout`
pub record Device : Type 0 where
  pub control : ℕ  -- uint32_t
  pub status : ℕ  -- uint32_t
  pub data_ptr : ℕ  -- uint64_t
  pub counter : ℕ  -- uint64_t
  pub laser_temp : ℕ  -- uint32_t, milli-Celsius
  pub gan_voltage : ℕ  -- uint32_t
  pub rf_snr : ℤ  -- int32_t, dB * 100
  pub safety_trip : ℕ  -- uint32_t

-- The registers, in the order of declaration.
pub data Register : Type 0 where
  control status data_ptr counter laser_temp gan_voltage rf_snr safety_trip : Register

-- `sizeof(T)` of each `PorthRegister<T>`
abbrev pub width : Register → ℕ
width Register.control = 4
width Register.status = 4
width Register.data_ptr = 8
width Register.counter = 8
width Register.laser_temp = 4
width Register.gan_voltage = 4
width Register.rf_snr = 4
width Register.safety_trip = 4

-- PORTH_CACHE_LINE_SIZE and cache_line_alignment
abbrev pub cache_line : ℕ
cache_line = 64

-- `expected_layout_size`
abbrev pub expected_layout_size : ℕ
expected_layout_size = 512

-- The declared offsets, `offset_control` to `offset_safety_trip`.
abbrev pub declared_offset : Register → ℕ
declared_offset Register.control = 0x00
declared_offset Register.status = 0x40
declared_offset Register.data_ptr = 0x80
declared_offset Register.counter = 0xC0
declared_offset Register.laser_temp = 0x100
declared_offset Register.gan_voltage = 0x140
declared_offset Register.rf_snr = 0x180
declared_offset Register.safety_trip = 0x1C0
