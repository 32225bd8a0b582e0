-- ===== src/Tests/Link.antt =====
-- The zero-copy handshake with a chip and a shuttle that can be had.
use porth_core.Base.{arith, true, false, none, some}
use porth_core.Device.{expected_layout_size}
use porth_core.Device.Mmio.{Memory}
use porth_core.HugePage
use porth_core.Shuttle
use porth_core.Mock
use porth_core.Link.{main, shuttle_capacity}
use porth_core.Link.Linked.{Fate, main-Fate}

abbrev shm : Mock.Os
shm = record { shm_open = some 3; ftruncate = true; mmap = some 4096 }

abbrev pages : HugePage.Os
pages = record {
  numa_available = true;
  numa_alloc = some 65536;
  aligned_alloc = none;
  mmap = some 0x200000;
  mlock = true;
  ci = false;
}

abbrev zeros : Memory
zeros _ = 0

main-Fate_example :
    Fate zeros
      (Mock.create expected_layout_size shm true false)
      (Shuttle.create shuttle_capacity pages 0 7)
      (main shm pages 7 false zeros)
main-Fate_example =
    main-Fate shm pages 7 false zeros
      (record { numa = omega arith; heap = tt; mapping = omega arith })
