-- ===== src/Sim.antt =====
-- include/porth/PorthSimDevice.hpp: the digital twin. One round of its physics loop is `physics_step`; what
-- its random generator draws is an argument. A ring's address selects it in `Rings`, the memory that the
-- device reads by DMA; `none` is a read where no ring stands.
pub mod Drain
pub mod Lattice
pub mod Power
pub mod Chaos
pub mod Bus
pub mod Loop
pub mod Setup
pub mod Heartbeat
use porth_core.Base.{
  ℕ, zero, suc, ◌+◌, ◌-◌, ◌*◌, ◌/◌, ◌^◌, bit_and, bit_xor, Bool, true, false, Option, none, some,
  ltb, ◌==◌, if◌then◌else◌, u32, u64, not, ◌&&◌, List, [], ◌∷◌, ◌++◌,
}
use porth_core.Base.Int.{ℤ, pos, negsuc, ◌-ℤ◌}
use porth_core.Device.{Device}
use porth_core.Ring.{Ring, Descriptor, blank, pop, push}
use porth_core.Phy.{Phy, update_thermal_load, set_config, new_phy, thermal_threshold_mc}

abbrev pub sim_base_temp_mc : ℕ
sim_base_temp_mc = 25000

abbrev pub sim_default_shuttle_size : ℕ
sim_default_shuttle_size = 1024

abbrev pub sim_overflow_iterations : ℕ
sim_overflow_iterations = 2048

abbrev pub sim_chaos_threshold : ℕ
sim_chaos_threshold = 28

-- `SimulationPhysics`
abbrev pub shuttle_align_mask : ℕ
shuttle_align_mask = 0x3F

abbrev pub gan_volt_limit_uv : ℕ
gan_volt_limit_uv = 800000

abbrev pub gan_volt_step_uv : ℕ
gan_volt_step_uv = 4000

abbrev pub gan_volt_cool_uv : ℕ
gan_volt_cool_uv = 8000

abbrev pub volt_temp_div : ℕ
volt_temp_div = 10000

abbrev pub volt_temp_mult : ℕ
volt_temp_mult = 800

abbrev pub snr_baseline_mc : ℕ
snr_baseline_mc = 3000

abbrev pub snr_temp_div : ℕ
snr_temp_div = 40

-- The state of `PorthSimDevice`: the register view, the PHY, and the flags.
pub record Sim : Type 0 where
  pub dev : Device
  pub phy : Phy
  pub run_sim : Bool
  pub inject_deadlock : Bool
  pub corrupt_status : Bool
  pub bus_hang : Bool
  pub last_valid_shuttle : ℕ  -- uint64_t

abbrev pub Rings : Type 0
Rings = ℕ → Option Ring

-- `while (ring->pop(desc)) { ...; dev->counter.write(dev->counter.load() + 1); }` on fuel. With the
-- descriptors that were taken; the PHY's delay between two of them changes no state here.
pub drain : ℕ → Ring → Descriptor → Device → Option (Ring × Device × List Descriptor)
drain zero ring desc dev = none
drain (suc fuel) ring desc dev =
    let (got, desc', ring') = pop sim_default_shuttle_size ring desc in
    let rest = drain fuel ring' desc' (record dev { counter = u64 (dev.counter + 1) }) in
    if got
    then elim rest [ none ↦ none | some (last, dev', ds) ↦ some (last, dev', desc' ∷ ds) ]
    else some (ring, dev, [])

-- What `process_dma` does with the rings: nothing, a read where no ring stands, or a drain.
pub data Dma : Type 0 where
  idle : Dma
  wild : (addr : ℕ) → Dma
  drained : (addr : ℕ) (ring : Ring) (taken : List Descriptor) → Dma

-- The guards of `process_dma`, up to the cast of the address to a ring.
unfoldable pub accepts : Sim → Bool
accepts s =
    let shuttle_addr = s.dev.data_ptr in
    let expected = s.last_valid_shuttle in
    not (shuttle_addr == 0)
    && (bit_and shuttle_addr shuttle_align_mask == 0)
    && not (not (expected == 0) && not (shuttle_addr == expected))

-- The fuel is one more than the ring can hold.
unfoldable pub process_dma : Rings → Sim → Sim × Dma
process_dma rings s =
    if accepts s
    then (let shuttle_addr = s.dev.data_ptr in
        let expected = s.last_valid_shuttle in
        let s' : Sim = record s {
          last_valid_shuttle = if expected == 0 then shuttle_addr else expected;
        } in
        elim (rings shuttle_addr) [
          | none ↦ (s', wild shuttle_addr)
          | some ring ↦ elim (drain sim_default_shuttle_size ring blank s.dev) [
            | none ↦ (s', idle)
            | some (ring', dev', taken) ↦
                (record s' { dev = dev' }, drained shuttle_addr ring' taken)
          ]
        ])
    else (s, idle)

-- The voltage that `update_thermal_model` writes.
pub next_voltage : Device → ℕ
next_voltage dev =
    let volt = dev.gan_voltage in
    if dev.control == 1
    then (if ltb volt gan_volt_limit_uv then u32 (volt + gan_volt_step_uv) else volt)
    else (if ltb 0 volt
        then (if ltb gan_volt_cool_uv volt then volt - gan_volt_cool_uv else 0)
        else volt)

-- The temperature that the voltage drives to.
pub target_temp : ℕ → ℕ
target_temp volt =
    if ltb 0 volt
    then u32 (sim_base_temp_mc + volt / volt_temp_div * volt_temp_mult)
    else sim_base_temp_mc

-- The quotient is of uint32_t, and small enough for its cast to int32_t.
pub snr_of : ℕ → ℤ
snr_of temp =
    if ltb thermal_threshold_mc temp
    then pos snr_baseline_mc -ℤ pos ((temp - thermal_threshold_mc) / snr_temp_div)
    else pos snr_baseline_mc

unfoldable pub update_thermal_model : Sim → Sim
update_thermal_model s =
    let volt = next_voltage s.dev in
    let phy' = update_thermal_load (target_temp volt) s.phy in
    let temp = phy'.current_temp_mc in
    record s {
      phy = phy';
      dev = record (s.dev) { gan_voltage = volt; rf_snr = snr_of temp; laser_temp = temp };
    }

-- What `bit_dist(gen)` returns for the choice and for the bit, each from 0 to 31.
pub record Draw : Type 0 where
  pub choice : ℕ
  pub bit : ℕ

unfoldable pub apply_chaos_effects : Draw → Sim → Sim
apply_chaos_effects d s =
    if s.corrupt_status
    then (if ltb sim_chaos_threshold d.choice
        then record s { dev = record (s.dev) { data_ptr = bit_xor s.dev.data_ptr (2 ^ d.bit) } }
        else record s { dev = record (s.dev) { status = bit_xor s.dev.status (2 ^ d.bit) } })
    else s

-- One round of `run_physics_loop`, without the sleep; the loop runs while `run_sim` is set.
unfoldable pub physics_step : Rings → Draw → Sim → Sim × Dma
physics_step rings d s =
    let s' : Sim = record s { dev = record (s.dev) { status = 1 } } in
    if s.inject_deadlock
    then (s', idle)
    else (let (s'', dma) = process_dma rings s' in
        (apply_chaos_effects d (update_thermal_model s''), dma))

-- What a round of the loop meets: the memory, as this thread's earlier rounds and all other threads leave
-- it, and the draws.
pub record Turn : Type 0 where
  pub memory : Rings
  pub draw : Draw

-- `run_physics_loop`, over the rounds that are given. With what each did with the rings.
unfoldable pub run_physics_loop : List Turn → Sim → List Dma × Sim
run_physics_loop [] s = ([], s)
run_physics_loop (x ∷ xs) s =
    let (s', dma) = physics_step x.memory x.draw s in
    let (dmas, last) = run_physics_loop xs s' in if s.run_sim then (dma ∷ dmas, last) else ([], s)

-- `force_buffer_overflow`, and its loop of pushes whose results are ignored.
pub push_many : ℕ → Descriptor → Ring → Ring
push_many zero junk ring = ring
push_many (suc n) junk ring = push_many n junk (push sim_default_shuttle_size ring junk).1

abbrev pub overflow_junk : Descriptor
overflow_junk = record { addr = 0xDEADBEEF; len = 64 }

unfoldable pub force_buffer_overflow : Ring → Ring
force_buffer_overflow ring = push_many sim_overflow_iterations overflow_junk ring
