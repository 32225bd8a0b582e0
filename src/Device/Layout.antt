-- ===== src/Device/Layout.antt =====
-- Where the C++ rules of standard layout put the registers, and that the declared offsets agree.
use porth_core.Base.{ℕ, zero, suc, ◌+◌, ◌-◌, ◌*◌, ◌/◌, ◌%◌, ◌≤◌, ◌≡◌, refl, List, [], ◌∷◌, arith}
use porth_core.Device.{Register, width, cache_line, declared_offset, expected_layout_size}

-- The next multiple of an alignment.
abbrev round_up : ℕ → ℕ → ℕ
round_up x align = (x + align - 1) / align * align

-- `PorthRegister<T>`: `m_value`, then the padding of PORTH_CACHE_LINE_SIZE - sizeof(T) bytes, in a class
-- aligned to the cache line.
register_size : ℕ → ℕ
register_size w = round_up (w + (cache_line - w)) cache_line

-- The members of `PorthDeviceLayout` in the order of declaration.
abbrev members : List Register
members =
    Register.control ∷ Register.status ∷ Register.data_ptr ∷ Register.counter ∷ Register.laser_temp
    ∷ Register.gan_voltage ∷ Register.rf_snr ∷ Register.safety_trip ∷ []

-- Standard layout: each member at the first aligned offset after the one before it.
sizeof_from : ℕ → List Register → ℕ
unfolding register_size
sizeof_from at [] = round_up at cache_line
sizeof_from at (r ∷ rs) = sizeof_from (round_up at cache_line + register_size (width r)) rs

abbrev index : Register → ℕ
index Register.control = 0
index Register.status = 1
index Register.data_ptr = 2
index Register.counter = 3
index Register.laser_temp = 4
index Register.gan_voltage = 5
index Register.rf_snr = 6
index Register.safety_trip = 7

-- The offset of member number `n`.
offset_from : ℕ → ℕ → List Register → ℕ
unfolding register_size
offset_from n at [] = at
offset_from zero at (r ∷ rs) = round_up at cache_line
offset_from (suc n) at (r ∷ rs) =
    offset_from n (round_up at cache_line + register_size (width r)) rs

unfoldable pub layout_offset : Register → ℕ
unfolding offset_from
layout_offset r = offset_from (index r) 0 members

unfoldable pub layout_size : ℕ
unfolding sizeof_from
layout_size = sizeof_from 0 members

-- The compiler's layout meets the static assertions: the size is 512 bytes, and every register stands
-- at its declared offset, on a cache line of its own that lies inside the region.
pub layout_matches :
    (r : Register)
    → (layout_size ≡ expected_layout_size)
      × (layout_offset r ≡ declared_offset r)
      × (layout_offset r % cache_line ≡ 0)
      × (layout_offset r + cache_line ≤ layout_size)
unfolding layout_offset layout_size
layout_matches Register.control = (refl, refl, refl, omega arith)
layout_matches Register.status = (refl, refl, refl, omega arith)
layout_matches Register.data_ptr = (refl, refl, refl, omega arith)
layout_matches Register.counter = (refl, refl, refl, omega arith)
layout_matches Register.laser_temp = (refl, refl, refl, omega arith)
layout_matches Register.gan_voltage = (refl, refl, refl, omega arith)
layout_matches Register.rf_snr = (refl, refl, refl, omega arith)
layout_matches Register.safety_trip = (refl, refl, refl, omega arith)
