-- ===== src/Tests/Ownership.antt =====
-- The constructors and destructors of include/porth/PorthHugePage.hpp, PorthShuttle.hpp and PorthTelemetry.hpp at
-- concrete inputs.
use porth_core.Base.{◌≡◌, refl, none, some, true, false}
use porth_core.Ring
use porth_core.Ring.{Ring}
use porth_core.HugePage
use porth_core.HugePage.{Os, thrown, mlock_failed, hp_size, total_size_of, allocate_initial_buffer}
use porth_core.Shuttle
use porth_core.Shuttle.{Shuttle, built_shuttle, get_device_addr}
use porth_core.Shuttle.Ownership.{Kept, create-Kept}
use porth_core.Telemetry.Hub
use porth_core.Telemetry.Hub.{Closed, create-Closed}

-- No huge page is to be had, and the heap's buffer cannot be locked.
abbrev poor : Os
poor = record {
  numa_available = false;
  numa_alloc = none;
  aligned_alloc = some 2097152;
  mmap = none;
  mlock = false;
  ci = false;
}

abbrev lenient : Os
lenient = record poor { ci = true }

create-Kept_example : Kept 1024 (Shuttle.create 1024 lenient 0 65536)
create-Kept_example = create-Kept 1024 lenient 0 65536

abbrev shuttle : Shuttle
shuttle = record {
  memory = record {
    ptr = 2097152;
    total_size = 2097152;
    node = 0;
    is_numa_managed = false;
    is_mmaped = false;
  };
  ring = some (Ring.create 1024 none);
  descriptors = 65536;
  device_iova = 0;
}

shuttle_is_built :
    Shuttle.create 1024 lenient 0 65536
    ≡ ((Shuttle.create 1024 lenient 0 65536).0, built_shuttle shuttle)
unfolding Shuttle.create Shuttle.place_ring HugePage.create HugePage.attempt_hugepage_upgrade
    HugePage.allocate_initial_buffer HugePage.total_size_of
shuttle_is_built = refl

abbrev unmapped : Hub.Os
unmapped = record { shm_open = some 3; ftruncate = true; fchmod = true; mmap = none }
