-- ===== src/Driver/Shutdown.antt =====
-- The watchdog and the device it guards: what its trip does to the chip.
use porth_core.Base.{ℕ, ◌+◌, ◌≤◌, ◌≡◌, arith, some, List}
use porth_core.Device.{Device}
use porth_core.Phy.Thermal.{Near}
use porth_core.Sim.{Sim}
use porth_core.Sim.Lattice.{InRange, thermal_rounds, cools_down}
use porth_core.Driver.{Driver}
use porth_core.Driver.Watchdog.{Round, Breach, Breach-watch, watchdog_loop}

-- A breach of the limit on the registers of a device in range powers the device off: the watchdog leaves registers
-- over which, after 101 rounds of the device's model and then 4267 or more, there is no voltage and the
-- temperature is near 25 degrees.
pub watchdog_loop-cools :
    (s : Sim) (d : Driver) (rs : List Round) (t n : ℕ)
    → Breach rs t
    → InRange s
    → 4267 ≤ n
    → (regs : Device) × ((watchdog_loop (some s.dev) d rs).1 ≡ some regs)
      × (let last = thermal_rounds (101 + n) (record s { dev = regs }) in
          (last.dev.gan_voltage ≡ 0) × Near 25000 last.phy)
unfolding watchdog_loop
watchdog_loop-cools s d rs t n b v h =
    let off : Device = record (s.dev) { control = 0 } in
    (
      off,
      ground (arith, (Breach-watch rs t).0 b),
      cools_down n (record s { dev = off }) (omega arith)
          (record { volt = v.volt; warm = v.warm; cool = v.cool }) h,
    )
