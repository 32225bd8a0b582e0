-- ===== src/Portal.antt =====
-- include/porth/PorthNetworkPortal.hpp: the portal that listens on an interface by itself. The rings of AF_XDP
-- belong to the kernel and libxdp: what their calls return is an argument.
pub mod Frames
pub mod Session
use porth_core.Base.{
  ℕ, zero, suc, ◌+◌, ◌-◌, ◌*◌, ◌^◌, Bool, true, false, ◌&&◌, List, [], ◌∷◌, ◌++◌, Option, none,
  some, u64, u32, ltb, ◌==◌, if◌then◌else◌,
}
use porth_core.Resource.{Resource, Event, acquire, release, heap, umem, socket, bpf_object}

abbrev pub num_frames : ℕ
num_frames = 4096

abbrev pub frame_size : ℕ
frame_size = 4096

abbrev pub umem_size : ℕ
umem_size = num_frames * frame_size

abbrev pub fill_ring_reserve_size : ℕ
fill_ring_reserve_size = 64

abbrev pub total_hdr_len : ℕ
total_hdr_len = 14 + 20 + 8

-- The addresses that `prime_fill_ring` hands out, from frame `i` on, for the `n` slots that were reserved.
unfoldable pub prime_from : ℕ → ℕ → List ℕ
prime_from i zero = []
prime_from i (suc n) = u64 (i * frame_size) ∷ prime_from (i + 1) n

unfoldable pub prime_fill_ring : ℕ → List ℕ
prime_fill_ring reserved = prime_from 0 reserved

-- A received descriptor, with the two bytes of the EtherType that stand in its frame, and whether the
-- reservation of a slot to recycle it succeeds.
pub record Received : Type 0 where
  pub addr : ℕ  -- uint64_t
  pub len : ℕ  -- uint32_t
  pub ethertype : ℕ × ℕ
  pub reserve : Bool

-- The text that the constructor of std::string is asked for: where it begins, and its length, which is computed in size_t.
pub record Payload : Type 0 where
  pub start : ℕ
  pub size : ℕ

abbrev pub payload_of : Received → List Payload
payload_of r =
    let (hi, lo) = r.ethertype in
    if (hi == 0x08) && (lo == 0x00)
    then record { start = r.addr + total_hdr_len; size = u64 (r.len + 2 ^ 64 - total_hdr_len) } ∷ []
    else []

-- Whether the constructor of std::string throws std::length_error: where the text is longer than `max_size`, that of
-- std::string.
abbrev pub too_long : ℕ → List Payload → Bool
too_long max_size [] = false
too_long max_size (p ∷ ps) = ltb max_size p.size

-- The loop of `poll_rx`: whether it comes to its end, the texts that it asks for, and the frames that it hands back. The
-- exception leaves it before the frame is handed back.
unfoldable pub poll_each : ℕ → List Received → Bool × List Payload × List ℕ
poll_each max_size [] = (true, [], [])
poll_each max_size (r ∷ rs) =
    let (ended, payloads, recycled) = poll_each max_size rs in
    if too_long max_size (payload_of r)
    then (false, payload_of r, [])
    else (ended, payload_of r ++ payloads, if r.reserve then r.addr ∷ recycled else recycled)

-- A call of `poll_rx`: what it returns, or `none` for the exception; the texts it asks for; the frames it hands back;
-- and how many descriptors it releases.
pub record Poll : Type 0 where
  pub returned : Option ℕ
  pub payloads : List Payload
  pub recycled : List ℕ
  pub released : ℕ

-- Peek asks for one descriptor.
unfoldable pub poll_rx : ℕ → Option Received → Poll
unfolding poll_each
poll_rx max_size none = record { returned = some 0; payloads = []; recycled = []; released = 0 }
poll_rx max_size (some r) =
    let (ended, payloads, recycled) = poll_each max_size (r ∷ []) in
    if ended
    then record { returned = some 1; payloads = payloads; recycled = recycled; released = 1 }
    else record { returned = none; payloads = payloads; recycled = recycled; released = 0 }

-- The pointers that the object owns; 0 is null.
pub record Owned : Type 0 where
  pub xsk : ℕ
  pub umem_handle : ℕ
  pub umem_area : ℕ
  pub bpf_obj : ℕ

abbrev pub resource_of : Owned → List Resource
resource_of o =
    (if o.xsk == 0 then [] else record { kind = socket; handle = o.xsk; size = 0 } ∷ [])
    ++ (if o.umem_handle == 0
        then []
        else record { kind = umem; handle = o.umem_handle; size = 0 } ∷ [])
    ++ (if o.bpf_obj == 0
        then []
        else record { kind = bpf_object; handle = o.bpf_obj; size = 0 } ∷ [])
    ++ (if o.umem_area == 0
        then []
        else record { kind = heap; handle = o.umem_area; size = umem_size } ∷ [])

-- The destructor: the socket before the memory that it uses.
abbrev pub release_all : List Resource → List Event
release_all [] = []
release_all (r ∷ rs) = release r ∷ release_all rs

unfoldable pub destroy : Owned → List Event
destroy o = release_all (resource_of o)

-- The defaulted move: raw pointers are copied, and the source keeps its own.
unfoldable pub move : Owned → Owned × Owned
move o = (o, o)
