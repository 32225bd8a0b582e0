-- ===== src/Link.antt =====
-- examples/zero_copy_handshake.cpp: the shuttle's address is passed to the chip through the data_ptr register of the
-- mock device. The results of the system calls are the arguments `Mock.Os` and `HugePage.Os`.
pub mod Linked
use porth_core.Base.{ℕ, Bool, true, false, List, [], ◌++◌, ◌==◌, if◌then◌else◌}
use porth_core.Resource.{Event}
use porth_core.Device.{Register, expected_layout_size}
use porth_core.Device.Mmio.{Memory, load_register, write_register}
use porth_core.HugePage.{Os}
use porth_core.Shuttle
use porth_core.Shuttle.{Shuttle, get_device_addr}
use porth_core.Mock
use porth_core.Mock.{MockDevice}

-- `SHUTTLE_CAPACITY`
abbrev pub shuttle_capacity : ℕ
shuttle_capacity = 1024

-- What `main` leaves behind: its exit code, what was acquired and released, whether the name of the registers is
-- linked, and the bytes of the registers.
pub record Ended : Type 0 where
  pub exit_code : ℕ
  pub events : List Event
  pub linked : Bool
  pub memory : Memory

-- The handshake itself: the address is written to data_ptr, read back and compared. The result is the exit code.
unfoldable pub write_and_verify : Shuttle → Memory → ℕ × Memory
write_and_verify shuttle m =
    let bus_address = get_device_addr shuttle in
    let m' = write_register Register.data_ptr bus_address m in
    let read_back = load_register Register.data_ptr m' in
    (if read_back == bus_address then 0 else 1, m')

-- From the mapped registers on, up to the end of the block of `try`: the shuttle's destructor, if it was built, and
-- then the mock device's.
unfoldable pub with_device : MockDevice → Mock.Trace → Memory → List Event × Shuttle.Outcome → Ended
unfolding write_and_verify
with_device hal t m (es, Shuttle.failed e) =
    let gone = Mock.destroy expected_layout_size hal t.linked in
    record {
      exit_code = 1;
      events = t.events ++ (es ++ gone.events);
      linked = gone.linked;
      memory = m;
    }
with_device hal t m (es, Shuttle.built_shuttle shuttle) =
    let (exit_code, m') = write_and_verify shuttle m in
    let gone = Mock.destroy expected_layout_size hal t.linked in
    record {
      exit_code = exit_code;
      events = t.events ++ ((es ++ Shuttle.destroy shuttle_capacity shuttle) ++ gone.events);
      linked = gone.linked;
      memory = m';
    }

-- From the mock device's constructor on.
unfoldable pub with_outcome : Os → ℕ → Memory → Mock.Trace × Mock.Outcome → Ended
unfolding with_device
with_outcome os descriptors m (t, Mock.thrown e) = record {
  exit_code = 1;
  events = t.events;
  linked = t.linked;
  memory = m;
}
with_outcome os descriptors m (t, Mock.built hal) =
    with_device hal t m (Shuttle.create shuttle_capacity os 0 descriptors)

-- `main`; `linked` is whether the name of the registers is linked before, `m` the bytes that are mapped.
unfoldable pub main : Mock.Os → Os → ℕ → Bool → Memory → Ended
unfolding with_outcome
main shm os descriptors linked m =
    with_outcome os descriptors m (Mock.create expected_layout_size shm true linked)
