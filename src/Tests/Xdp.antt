-- ===== src/Tests/Xdp.antt =====
-- The portals of include/porth/PorthXDPPortal.hpp and PorthNetworkPortal.hpp, and the kernel's filter, at concrete inputs.
use porth_core.Base.{
  ℕ, ◌+◌, ◌-◌, ◌^◌, ◌≡◌, ◌≤◌, ◌<◌, ◌⊎◌, refl, arith, List, [], ◌∷◌, ◌++◌, none, some, true, false,
  length, if◌then◌else◌,
}
use porth_core.Ring
use porth_core.Ring.{Descriptor}
use porth_core.Ring.Inv.{IsSize, create-IsValid}
use porth_core.Shuttle.{Shuttle}
use porth_core.Driver.{count_dropped}
use porth_core.Xdp
use porth_core.Xdp.{
  Nic, is_addr_valid, bridge_to_shuttle, bind_shuttle_memory, recycle_frame, release_rx,
}
use porth_core.Xdp.Bridge.{bridge_all, bind-drops}
use porth_core.Xdp.Filter.{IsOurs, pass, redirect, porth_xdp_prog, porth_xdp_prog-decides}
use porth_core.Portal.{prime_from, prime_fill_ring, Received, Payload, Owned, poll_rx, umem_size}
use porth_core.Portal.Frames.{IsMaxSize, poll_rx-payload}
use porth_core.Resource.{settle}
use porth_core.Base.{take, u64}
use porth_core.Base.Int.{pos}
use porth_core.Phy.{new_phy}
use porth_core.Ring.Span.{contents}
use porth_core.Sim.{Sim, Rings, accepts, process_dma, drained}
use porth_core.Sim.Drain.{shuttle-IsSize}
use porth_core.Xdp.Delivery.{passing_all, bridged_delivered}
use porth_core.Portal.Session.{Answers, cut_short, poll_all, serve}
use porth_core.Portal.Session.Settled.{Ends, serve-Settled}

abbrev portal : Xdp.Portal
portal = record { umem = 1; xsk = 2; xsk_fd = some 5; umem_start = 4194304; umem_end = 6291456 }

abbrev frame : Descriptor
frame = record { addr = 4194304; len = 128 }

abbrev nic : Nic
nic = record { peek = some frame; base = λ a. a; needs_wakeup = false; reserve = true }

four-IsSize : IsSize 4
four-IsSize = record { k = 2; power = refl; small = omega arith }

-- Ethernet, IPv4 without options, UDP to port 12345.
abbrev ours : List ℕ
ours =
    0 ∷ 0 ∷ 0 ∷ 0 ∷ 0 ∷ 0 ∷ 0 ∷ 0 ∷ 0 ∷ 0 ∷ 0 ∷ 0 ∷ 8 ∷ 0 ∷ 69 ∷ 0 ∷ 0 ∷ 0 ∷ 0 ∷ 0 ∷ 0 ∷ 0 ∷ 64 ∷ 17
    ∷ 0 ∷ 0 ∷ 0 ∷ 0 ∷ 0 ∷ 0 ∷ 0 ∷ 0 ∷ 0 ∷ 0 ∷ 0 ∷ 9 ∷ 48 ∷ 57 ∷ 0 ∷ 8 ∷ 0 ∷ 0 ∷ []

ours_is_redirected : porth_xdp_prog ours 3 ≡ some (redirect 3)
unfolding porth_xdp_prog
ours_is_redirected = refl

porth_xdp_prog-decides_example :
    ((porth_xdp_prog ours 3 ≡ some (redirect 3)) × IsOurs ours)
    ⊎ ((porth_xdp_prog ours 3 ≡ some pass) × ¬ IsOurs ours)
porth_xdp_prog-decides_example = porth_xdp_prog-decides ours 3

-- A frame of 20 bytes.
abbrev short : Received
short = record { addr = 8192; len = 20; ethertype = (0x08, 0x00); reserve = true }

abbrev long : Received
long = record { addr = 12288; len = 64; ethertype = (0x08, 0x00); reserve = true }

-- `max_size` of libstdc++.
abbrev max_size : ℕ
max_size = 2 ^ 63 - 1

max_size-IsMaxSize : IsMaxSize max_size
max_size-IsMaxSize = record { fits = omega arith; below = omega arith }

poll_rx-payload_example :
    let poll = poll_rx max_size (some short) in
    (q : Payload) × (poll.payloads ≡ q ∷ [])
    × (((42 ≤ short.len)
          × (q.start + q.size ≤ umem_size)
          × (poll.returned ≡ some 1)
          × (poll.recycled ≡ (if short.reserve then short.addr ∷ [] else []))
          × (poll.released ≡ 1))
        ⊎ ((short.len < 42)
            × (2 ^ 64 - 42 ≤ q.size)
            × (poll.returned ≡ none)
            × (poll.recycled ≡ [])
            × (poll.released ≡ 0)))
poll_rx-payload_example = poll_rx-payload short max_size-IsMaxSize refl (omega arith)

abbrev owned : Owned
owned = record { xsk = 0; umem_handle = 0; umem_area = 65536; bpf_obj = 0 }

-- The shuttle's region at 4 MiB, and a card that gives offsets.
abbrev shuttle : Shuttle
shuttle = record {
  memory = record {
    ptr = 4194304;
    total_size = 2097152;
    node = 0;
    is_numa_managed = true;
    is_mmaped = true;
  };
  ring = some (Ring.create 4 none);
  descriptors = 65536;
  device_iova = 0;
}

abbrev offsets : Nic
offsets = record nic { peek = some (record { addr = 8192; len = 128 }) }

bind-drops_example :
    bridge_to_shuttle 4
      (bind_shuttle_memory shuttle (some 1) portal).1
      offsets
      (Ring.create 4 none)
      none
    ≡ (recycle_frame offsets 8192 ++ release_rx ∷ [], Ring.create 4 none, count_dropped none)
bind-drops_example =
    bind-drops 4 shuttle 1 portal offsets (Ring.create 4 none) none
      (record { addr = 8192; len = 128 }) refl (omega arith) (omega arith)

abbrev empty_ring : Ring.Ring
empty_ring = Ring.create 1024 none

abbrev device : Sim
device = record {
  dev = record {
    control = 1;
    status = 1;
    data_ptr = 4194304;
    counter = 9;
    laser_temp = 25000;
    gan_voltage = 0;
    rf_snr = pos 3000;
    safety_trip = 0;
  };
  phy = new_phy 100 25;
  run_sim = true;
  inject_deadlock = false;
  corrupt_status = false;
  bus_hang = false;
  last_valid_shuttle = 0;
}

abbrev memory : Rings
memory _ = some (bridge_all 1024 portal (nic ∷ offsets ∷ nic ∷ []) empty_ring none).0

device-accepts : accepts device ≡ true
unfolding accepts
device-accepts = refl

bridged_delivered_example :
    let taken =
      contents 1024 empty_ring
      ++ take
          (1023 - length (contents 1024 empty_ring))
          (passing_all portal (nic ∷ offsets ∷ nic ∷ [])) in
    (last : Ring.Ring) × (process_dma memory device ≡ (
      record device {
        last_valid_shuttle = 4194304;
        dev = record (device.dev) { counter = u64 (9 + length taken) };
      },
      drained 4194304 last taken,
    ))
    × (contents 1024 last ≡ [])
bridged_delivered_example =
    bridged_delivered portal (nic ∷ offsets ∷ nic ∷ []) empty_ring none memory device
      (create-IsValid shuttle-IsSize) refl device-accepts (omega arith)

-- A program that could not be loaded.
abbrev answers : Answers
answers = record {
  area = some 65536;
  program_exists = true;
  umem_created = some 1;
  xsk_created = some 2;
  object = none;
  map_fd = some 7;
  reserved = 3;
  received = none ∷ some long ∷ some short ∷ some long ∷ [];
  max_size = max_size;
}

-- The second packet ends the program.
cut_short_unbound : (serve answers).1 ≡ cut_short false (0 ∷ 4096 ∷ 8192 ∷ []) 1
unfolding serve prime_fill_ring prime_from poll_all poll_rx
cut_short_unbound = refl

serve-Settled_example : (settle (serve answers).0 [] ≡ some []) × Ends answers (serve answers).1
serve-Settled_example =
    serve-Settled answers (λ e. absurd (ground arith)) (λ e. absurd (ground arith))
      (λ e. absurd (ground arith)) (λ e. absurd (cc)) max_size-IsMaxSize
      (tt, (omega arith, (omega arith, (omega arith, tt))))
