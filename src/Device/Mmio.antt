-- ===== src/Device/Mmio.antt =====
-- `PorthRegister::load` and `PorthRegister::write` on the bytes of the mapped region, low byte first, and
-- the region as a `Device`. Each access is one atomic step, as `std::atomic_ref` makes it.
use native.Mathlib.Nat.{
  pow-suc, one-le-pow, add-mul-mod_self_right, mod-eq_of_lt, mod-lt, div-add-mod',
}
use porth_core.Base.{
  ℕ, zero, suc, ◌+◌, ◌-◌, ◌*◌, ◌/◌, ◌%◌, ◌^◌, ◌≤◌, ◌<◌, ◌≡◌, refl, ap, ◌∙◌, ◌⊎◌, arith, ◌==◌,
  if◌then◌else◌, ltb, Bool, false, ◌&&◌,
}
use porth_core.Base.Int.{ℤ, pos, negsuc}
use porth_core.Device.{Device, Register, width, declared_offset}

abbrev pub Memory : Type 0
Memory = ℕ → ℕ

abbrev pub put : Memory → ℕ → ℕ → Memory
put m a b j = if a == j then b else m j

pub load : ℕ → ℕ → Memory → ℕ
load zero a m = 0
load (suc w) a m = m a + 256 * load w (a + 1) m

pub store : ℕ → ℕ → ℕ → Memory → Memory
store zero a v m = m
store (suc w) a v m = store w (a + 1) (v / 256) (put m a (v % 256))

-- `PorthRegister<T>::load` and `::write`, for the register at its offset.
unfoldable pub load_register : Register → Memory → ℕ
load_register r m = load (width r) (declared_offset r) m

unfoldable pub write_register : Register → ℕ → Memory → Memory
write_register r v m = store (width r) (declared_offset r) v m

-- A store changes no byte outside its range.
store-outside : (w a v : ℕ) (m : Memory) (j : ℕ) → (j < a) ⊎ (a + w ≤ j) → store w a v m j ≡ m j
unfolding store
store-outside zero a v m j h = refl
store-outside (suc w) a v m j h =
    store-outside w (a + 1) (v / 256) (put m a (v % 256)) j (omega arith) ∙ ground arith

load-store_apart :
    (n b w a v : ℕ) (m : Memory) → (b + n ≤ a) ⊎ (a + w ≤ b) → load n b (store w a v m) ≡ load n b m
unfolding load
load-store_apart zero b w a v m h = refl
load-store_apart (suc n) b w a v m h =
    ground (
      arith,
      store-outside w a v m b (omega arith),
      load-store_apart n (b + 1) w a v m (omega arith),
    )

mod-byte-suc : (k a : ℕ) → a % 256 ^ suc k ≡ a % 256 + 256 * (a / 256 % 256 ^ k)
mod-byte-suc k a =
    ap (λ t. t % 256 ^ suc k) split
    ∙ add-mul-mod_self_right _ (a / 256 / 256 ^ k) (256 ^ suc k)
    ∙ mod-eq_of_lt (omega (arith, pow-suc 256 k, mod-lt (a / 256) (one-le-pow k 256 (omega arith))))
  where
    split : a ≡ a % 256 + 256 * (a / 256 % 256 ^ k) + a / 256 / 256 ^ k * 256 ^ suc k
    split = omega (
      arith,
      div-add-mod' (a / 256) (256 ^ k),
      ap (λ (t : ℕ). a / 256 / 256 ^ k * t) (pow-suc 256 k),
    )

-- A load gives back what a store of the same width put there, cut to that width.
load-store : (w a v : ℕ) (m : Memory) → load w a (store w a v m) ≡ v % 256 ^ w
unfolding load store
load-store zero a v m = omega arith
load-store (suc w) a v m = ground (
  arith,
  store-outside w (a + 1) (v / 256) (put m a (v % 256)) a (omega arith),
  load-store w (a + 1) (v / 256) (put m a (v % 256)),
  mod-byte-suc w v,
)

-- Two's complement, for the int32_t register.
abbrev pub signed32 : ℕ → ℤ
signed32 n = if ltb n (2 ^ 31) then pos n else negsuc (2 ^ 32 - n - 1)

-- The mapped region as the register values that it holds.
unfoldable pub view : Memory → Device
view m = record {
  control = load_register Register.control m;
  status = load_register Register.status m;
  data_ptr = load_register Register.data_ptr m;
  counter = load_register Register.counter m;
  laser_temp = load_register Register.laser_temp m;
  gan_voltage = load_register Register.gan_voltage m;
  rf_snr = signed32 (load_register Register.rf_snr m);
  safety_trip = load_register Register.safety_trip m;
}

-- The value of one register replaced.
abbrev pub assign : Register → ℕ → Device → Device
assign Register.control v d = record d { control = v }
assign Register.status v d = record d { status = v }
assign Register.data_ptr v d = record d { data_ptr = v }
assign Register.counter v d = record d { counter = v }
assign Register.laser_temp v d = record d { laser_temp = v }
assign Register.gan_voltage v d = record d { gan_voltage = v }
assign Register.rf_snr v d = record d { rf_snr = signed32 v }
assign Register.safety_trip v d = record d { safety_trip = v }

pub load-write_self :
    (r : Register) (v : ℕ) (m : Memory)
    → v < 256 ^ width r
    → load_register r (write_register r v m) ≡ v
unfolding load_register write_register
load-write_self r v m h = load-store (width r) (declared_offset r) v m ∙ mod-eq_of_lt h

-- `true` for registers whose bytes overlap.
abbrev pub overlap : Register → Register → Bool
overlap r s =
    ltb (declared_offset s) (declared_offset r + width r)
    && ltb (declared_offset r) (declared_offset s + width s)

pub load-write_apart :
    (r s : Register) (v : ℕ) (m : Memory)
    → overlap r s ≡ false
    → load_register s (write_register r v m) ≡ load_register s m
unfolding load_register write_register
load-write_apart r s v m h =
    load-store_apart (width s) (declared_offset s) (width r) (declared_offset r) v m (ground arith)

-- Writing a register with a value that fits it changes that register and no other: the bytes of the
-- mapped region behave as a record of eight independent registers, and a load returns the last write.
pub write_refines :
    (r : Register) (v : ℕ) (m : Memory)
    → v < 256 ^ width r
    → (view (write_register r v m) ≡ assign r v (view m))
      × (load_register r (write_register r v m) ≡ v)
unfolding view
write_refines Register.control v m h = (
  simp (
    load-write_self Register.control v m h,
    load-write_apart Register.control Register.status v m refl,
    load-write_apart Register.control Register.data_ptr v m refl,
    load-write_apart Register.control Register.counter v m refl,
    load-write_apart Register.control Register.laser_temp v m refl,
    load-write_apart Register.control Register.gan_voltage v m refl,
    load-write_apart Register.control Register.rf_snr v m refl,
    load-write_apart Register.control Register.safety_trip v m refl,
  ),
  load-write_self Register.control v m h,
)
write_refines Register.status v m h = (
  simp (
    load-write_self Register.status v m h,
    load-write_apart Register.status Register.control v m refl,
    load-write_apart Register.status Register.data_ptr v m refl,
    load-write_apart Register.status Register.counter v m refl,
    load-write_apart Register.status Register.laser_temp v m refl,
    load-write_apart Register.status Register.gan_voltage v m refl,
    load-write_apart Register.status Register.rf_snr v m refl,
    load-write_apart Register.status Register.safety_trip v m refl,
  ),
  load-write_self Register.status v m h,
)
write_refines Register.data_ptr v m h = (
  simp (
    load-write_self Register.data_ptr v m h,
    load-write_apart Register.data_ptr Register.control v m refl,
    load-write_apart Register.data_ptr Register.status v m refl,
    load-write_apart Register.data_ptr Register.counter v m refl,
    load-write_apart Register.data_ptr Register.laser_temp v m refl,
    load-write_apart Register.data_ptr Register.gan_voltage v m refl,
    load-write_apart Register.data_ptr Register.rf_snr v m refl,
    load-write_apart Register.data_ptr Register.safety_trip v m refl,
  ),
  load-write_self Register.data_ptr v m h,
)
write_refines Register.counter v m h = (
  simp (
    load-write_self Register.counter v m h,
    load-write_apart Register.counter Register.control v m refl,
    load-write_apart Register.counter Register.status v m refl,
    load-write_apart Register.counter Register.data_ptr v m refl,
    load-write_apart Register.counter Register.laser_temp v m refl,
    load-write_apart Register.counter Register.gan_voltage v m refl,
    load-write_apart Register.counter Register.rf_snr v m refl,
    load-write_apart Register.counter Register.safety_trip v m refl,
  ),
  load-write_self Register.counter v m h,
)
write_refines Register.laser_temp v m h = (
  simp (
    load-write_self Register.laser_temp v m h,
    load-write_apart Register.laser_temp Register.control v m refl,
    load-write_apart Register.laser_temp Register.status v m refl,
    load-write_apart Register.laser_temp Register.data_ptr v m refl,
    load-write_apart Register.laser_temp Register.counter v m refl,
    load-write_apart Register.laser_temp Register.gan_voltage v m refl,
    load-write_apart Register.laser_temp Register.rf_snr v m refl,
    load-write_apart Register.laser_temp Register.safety_trip v m refl,
  ),
  load-write_self Register.laser_temp v m h,
)
write_refines Register.gan_voltage v m h = (
  simp (
    load-write_self Register.gan_voltage v m h,
    load-write_apart Register.gan_voltage Register.control v m refl,
    load-write_apart Register.gan_voltage Register.status v m refl,
    load-write_apart Register.gan_voltage Register.data_ptr v m refl,
    load-write_apart Register.gan_voltage Register.counter v m refl,
    load-write_apart Register.gan_voltage Register.laser_temp v m refl,
    load-write_apart Register.gan_voltage Register.rf_snr v m refl,
    load-write_apart Register.gan_voltage Register.safety_trip v m refl,
  ),
  load-write_self Register.gan_voltage v m h,
)
write_refines Register.rf_snr v m h = (
  simp (
    load-write_self Register.rf_snr v m h,
    load-write_apart Register.rf_snr Register.control v m refl,
    load-write_apart Register.rf_snr Register.status v m refl,
    load-write_apart Register.rf_snr Register.data_ptr v m refl,
    load-write_apart Register.rf_snr Register.counter v m refl,
    load-write_apart Register.rf_snr Register.laser_temp v m refl,
    load-write_apart Register.rf_snr Register.gan_voltage v m refl,
    load-write_apart Register.rf_snr Register.safety_trip v m refl,
  ),
  load-write_self Register.rf_snr v m h,
)
write_refines Register.safety_trip v m h = (
  simp (
    load-write_self Register.safety_trip v m h,
    load-write_apart Register.safety_trip Register.control v m refl,
    load-write_apart Register.safety_trip Register.status v m refl,
    load-write_apart Register.safety_trip Register.data_ptr v m refl,
    load-write_apart Register.safety_trip Register.counter v m refl,
    load-write_apart Register.safety_trip Register.laser_temp v m refl,
    load-write_apart Register.safety_trip Register.gan_voltage v m refl,
    load-write_apart Register.safety_trip Register.rf_snr v m refl,
  ),
  load-write_self Register.safety_trip v m h,
)
