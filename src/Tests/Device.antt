-- ===== src/Tests/Device.antt =====
-- The register file of include/porth/PorthDeviceLayout.hpp at concrete inputs.
use porth_core.Base.{◌≡◌, arith}
use porth_core.Device.{Register}
use porth_core.Device.Mmio.{Memory, load_register, write_register, view, assign, write_refines}

-- A region of nothing but the byte 0xA5.
abbrev noise : Memory
noise _ = 0xA5

write_refines_example :
    (view (write_register Register.data_ptr 4194304 noise)
      ≡ assign Register.data_ptr 4194304 (view noise))
    × (load_register Register.data_ptr (write_register Register.data_ptr 4194304 noise) ≡ 4194304)
write_refines_example = write_refines Register.data_ptr 4194304 noise (omega arith)
