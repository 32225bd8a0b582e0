-- ===== src/Tests/Handshake.antt =====
-- The handshake of examples/mock_handshake.cpp on one register region.
use porth_core.Base.{ℕ, ◌≡◌, ◌⊎◌, refl}
use porth_core.Base.Int.{pos}
use porth_core.Device.{Device}
use porth_core.Handshake.{
  ctrl_idle, polling, ctrl_reset, status_ready, System, Reach, start, later, powered_on,
  powered_down, clearing, joining, finished, sees_start, sees_reset, write_busy, load_counter,
  write_counter, write_ready, write_idle, write_start, sees_ready, sample, write_reset, join,
}
use porth_core.Handshake.Race.{finishes_right}
use porth_core.Handshake.Fate.{Ends, Lost, comes_through, loses_reset}

abbrev registers : Device
registers = record {
  control = 7;
  status = 3;
  data_ptr = 0;
  counter = 41;
  laser_temp = 25000;
  gan_voltage = 0;
  rf_snr = pos 3000;
  safety_trip = 0;
}

abbrev after : Device
after = record registers { control = ctrl_reset; status = status_ready; counter = 42 }

abbrev over : System
over = record { regs = after; chip = powered_down; client = finished 42 }

-- A run on which the chip has written IDLE before the client writes RESET.
over-Reach : Reach (powered_on registers) over
over-Reach =
    later
      (later
        (later
          (later
            (later
              (later
                (later
                  (later
                    (later
                      (later (later (later start (write_start _ refl)) (sees_start _ refl refl))
                        (write_busy _ refl))
                      (load_counter _ refl))
                    (write_counter _ _ refl))
                  (write_ready _ refl))
                (write_idle _ refl))
              (sees_ready _ refl refl))
            (sample _ refl))
          (write_reset _ _ refl))
        (sees_reset _ refl refl))
      (join _ _ refl refl)

finishes_right_example : (◌≡◌ {A = ℕ} 42 42) × (over.regs.counter ≡ 42) × (over.chip ≡ powered_down)
finishes_right_example = finishes_right registers 42 over-Reach refl

comes_through_example : Ends over ⊎ Lost over
comes_through_example = comes_through registers over-Reach

abbrev joined : System
joined = record { regs = after; chip = clearing; client = joining 42 }

-- The chip has written its IDLE over the client's RESET.
abbrev forgotten : System
forgotten = record {
  regs = record after { control = ctrl_idle };
  chip = polling;
  client = joining 42;
}

loses_reset_example : (s : System) × Reach (powered_on registers) s × Lost s
loses_reset_example = loses_reset registers
