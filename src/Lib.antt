-- ===== src/Lib.antt =====
-- Porth-IO: the C++ core library that drives a photonic accelerator from user space (include/porth), modelled
-- part by part.
--
-- The parts and their files.
-- - Base and its children: the shared names, lists by native numbers, 32- and 64-bit cuts, integers.
-- - Ring (include/porth/PorthRingBuffer.hpp): `create`, `destroy`, `push` and `pop` of the descriptor ring, with
--   uint32_t indices. Ring/Queue is the reference queue of tests/fuzz_ring_buffer.cpp, Ring/Refine the
--   comparison with it. Ring/Spsc has the producer's and the consumer's threads with one shared
--   access at a time, in one global order of the accesses.
-- - Device (PorthDeviceLayout.hpp, PorthRegister.hpp): the eight registers; Device/Layout is the layout that the
--   compiler computes, Device/Mmio the bytes of the region.
-- - Clock and Phy (PorthClock.hpp, PorthSimPHY.hpp): the busy-wait, the delays and the thermal inertia. The
--   cycle counter is a parameter, with the documented behaviour of an invariant counter as the record
--   `IsRising`; doubles are the interface `Float`; random draws are arguments.
-- - Sim (PorthSimDevice.hpp): the digital twin. A round of its loop is `physics_step`, a run of rounds is
--   `run_physics_loop`; Sim/Drain is `process_dma`, Sim/Lattice the thermal model, Sim/Chaos the fault
--   injection, Sim/Power what a round does to voltage and temperature, Sim/Loop runs of rounds, Sim/Bus
--   the register and flit access, Sim/Setup the constructor and the setters, with PorthPDK.hpp, Sim/Heartbeat the
--   watchdog of tests/test_sim_chaos.cpp.
-- - Resource: a ledger of what is acquired from the operating system and released; Resource/Extra
--   is one with a leak. HugePage, Shuttle and
--   Telemetry (PorthHugePage.hpp, PorthShuttle.hpp, PorthTelemetry.hpp) are constructors and destructors over it;
--   the results of the system calls are the arguments `Os`.
-- - Driver (PorthDriver.hpp): the handshake, `transmit`, `receive` and teardown; Driver/Watchdog is
--   `watchdog_loop`, Driver/Thread what it asks of the scheduler (PorthUtil.hpp), Driver/EndToEnd and
--   Driver/Shutdown put the driver and its watchdog before the device, Driver/ClosedLoop lets the steps of
--   both threads alternate. Sentinel (PorthSentinel.hpp) is the second guard. Both loops are given what
--   their rounds read.
-- - Xdp and Portal (PorthXDPPortal.hpp, porth_xdp_kern.c, PorthNetworkPortal.hpp): packets from the network card.
--   What the calls of libxdp return is an argument (`Nic`, `Received`, `Answers`), and `max_size` of std::string a
--   parameter with bounds (`IsMaxSize`). Xdp/Delivery puts the bridge before the device; Xdp/Lifecycle and
--   Portal/Session open, serve and close.
-- - Vfio and Mock (PorthVFIODevice.hpp, PorthMockDevice.hpp): the other two ways to the registers, as ledgers.
-- - Handshake (examples/mock_handshake.cpp): the chip's thread and its client, one register access at a time.
-- - Tool (tools/porth-sim-ctl.cpp): the orchestrator's commands over the device's constructor; Tool/Args is its
--   command line, with std::stoull as a parameter. Tool/Chaos is tools/porth-chaos.cpp,
--   Tool/Audit tools/porth-check-env.cpp.
-- - Demo (examples/porth_full_demo.cpp): the measuring loop, over driver, portal, metric and device, and the
--   poll of the status register; Demo/Main is its `main`, from the back-end to the last destructor.
-- - Metric (PorthMetric.hpp): the sample buffer; Metric/Report has the figures of its reports. The library's sort
--   is a parameter, with its documented result as the record `Sorts`, and doubles are the interface `Double`.
-- - Bench (examples/calibrate_clock.cpp, examples/std_baseline.cpp, benchmarks, tests/test_metrics.cpp,
--   tests/test_sim_phy.cpp): the loops that measure, over numbered readings of the clock.
-- - Link (examples/zero_copy_handshake.cpp): a shuttle's address handed to the mock device through its register.
-- - Fuzz (tests/fuzz_ring_buffer.cpp): the two tasks of the differential fuzzer, one call at a time.
-- - Tests: runs at concrete inputs.
--
-- How they interact: the driver owns a shuttle, which owns a pinned region and the ring; it writes the
-- region's address to the pointer register; the device reads that register, takes the ring that stands
-- there, and drains it. `Rings` is the memory that the device sees: which ring stands at which address.
--
-- Fuel: `drain` has 1024, one more than a ring of 1024 slots can hold; `spin` has one more than the cycles to
-- wait, since a counter rises by a cycle or more between two readings. Sequences of rounds (`watch`,
-- `guard`, `run_physics_loop`, the iterations of Demo) stand for as many rounds as are given.
--
-- Atomics: the release stores and acquire loads of the ring's indices order the slot accesses around them, so
-- that one global order of the accesses is taken; weaker outcomes are not modelled.
--
-- Not modelled: printing and formatting, the arithmetic of doubles, the dashboard that only prints what it reads, and
-- what the benchmarks measure.
pub mod Base
pub mod Ring
pub mod Device
pub mod Clock
pub mod Phy
pub mod Sim
pub mod Resource
pub mod HugePage
pub mod Shuttle
pub mod Telemetry
pub mod Driver
pub mod Metric
pub mod Handshake
pub mod Vfio
pub mod Mock
pub mod Tool
pub mod Demo
pub mod Link
pub mod Fuzz
pub mod Bench
pub mod Sentinel
pub mod Xdp
pub mod Portal
pub mod Tests
