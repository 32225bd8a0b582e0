-- ===== src/Handshake.antt =====
-- examples/mock_handshake.cpp: the two sides of the control and status registers, one access at a time: the mock
-- chip's thread `run_mock_hardware`, and the driver in `main`.
pub mod Race
pub mod Fate
use porth_core.Base.{ℕ, ◌+◌, ◌≡◌, ◌≢◌, u64}
use porth_core.Device.{Device}

-- The commands and states of the namespace cardiff_chip.
abbrev pub ctrl_idle : ℕ
ctrl_idle = 0

abbrev pub ctrl_start : ℕ
ctrl_start = 1

abbrev pub ctrl_reset : ℕ
ctrl_reset = 9

abbrev pub status_busy : ℕ
status_busy = 1

abbrev pub status_ready : ℕ
status_ready = 2

-- Where the chip's thread stands: before the load of `control`; before the write of BUSY; before the load of
-- `counter`; before its write, with the value loaded; before the write of READY; before the write of
-- IDLE; and out of its loop.
pub data Chip : Type 0 where
  polling begun working : Chip
  committing : (count : ℕ) → Chip
  signalling clearing powered_down : Chip

-- Where `main` stands: before START, in the spin on `status`, before the load of `counter`, before RESET, in
-- the join, and behind it, with the result it has read.
pub data Client : Type 0 where
  starting spinning sampling : Client
  resetting : (result : ℕ) → Client
  joining : (result : ℕ) → Client
  finished : (result : ℕ) → Client

pub record System : Type 0 where
  pub regs : Device
  pub chip : Chip
  pub client : Client

-- One access of one thread.
pub data Step : System → System → Type 0 where
  sees_start :
      (s : System)
      → s.chip ≡ polling
      → s.regs.control ≡ ctrl_start
      → Step s (record s { chip = begun })
  sees_reset :
      (s : System)
      → s.chip ≡ polling
      → s.regs.control ≡ ctrl_reset
      → Step s (record s { chip = powered_down })
  sees_other :
      (s : System)
      → s.chip ≡ polling
      → s.regs.control ≢ ctrl_start
      → s.regs.control ≢ ctrl_reset
      → Step s s
  write_busy :
      (s : System)
      → s.chip ≡ begun
      → Step s (record s { regs = record (s.regs) { status = status_busy }; chip = working })
  load_counter :
      (s : System) → s.chip ≡ working → Step s (record s { chip = committing s.regs.counter })
  write_counter :
      (s : System) (count : ℕ)
      → s.chip ≡ committing count
      → Step s
          (record s { regs = record (s.regs) { counter = u64 (count + 1) }; chip = signalling })
  write_ready :
      (s : System)
      → s.chip ≡ signalling
      → Step s (record s { regs = record (s.regs) { status = status_ready }; chip = clearing })
  write_idle :
      (s : System)
      → s.chip ≡ clearing
      → Step s (record s { regs = record (s.regs) { control = ctrl_idle }; chip = polling })
  write_start :
      (s : System)
      → s.client ≡ starting
      → Step s (record s { regs = record (s.regs) { control = ctrl_start }; client = spinning })
  sees_ready :
      (s : System)
      → s.client ≡ spinning
      → s.regs.status ≡ status_ready
      → Step s (record s { client = sampling })
  sees_unready : (s : System) → s.client ≡ spinning → s.regs.status ≢ status_ready → Step s s
  sample :
      (s : System) → s.client ≡ sampling → Step s (record s { client = resetting s.regs.counter })
  write_reset :
      (s : System) (result : ℕ)
      → s.client ≡ resetting result
      → Step s
          (record s { regs = record (s.regs) { control = ctrl_reset }; client = joining result })
  join :
      (s : System) (result : ℕ)
      → s.client ≡ joining result
      → s.chip ≡ powered_down
      → Step s (record s { client = finished result })

pub data Reach (fresh : System) : System → Type 0 where
  start : Reach fresh fresh
  later : {s t : System} → Reach fresh s → Step s t → Reach fresh t

-- Both threads at their beginning, over a region that was just created.
abbrev pub powered_on : Device → System
powered_on regs = record {
  regs = record regs { control = ctrl_idle; status = 0 };
  chip = polling;
  client = starting;
}
