-- ===== src/Xdp.antt =====
-- include/porth/PorthXDPPortal.hpp: from the network card to the shuttle. The rings of AF_XDP belong to the
-- kernel and libxdp: what their calls return is an argument, and what they are called with is in the
-- result. include/porth/porth_xdp_kern.c is in Xdp/Filter.
pub mod Filter
pub mod Bridge
pub mod Lifecycle
pub mod Delivery
use porth_core.Base.{
  ℕ, ◌+◌, ◌-◌, ◌*◌, ◌^◌, Bool, true, false, not, ◌&&◌, List, [], ◌∷◌, ◌++◌, Option, none, some, u64,
  leb, ltb, ◌==◌, if◌then◌else◌,
}
use porth_core.Ring.{Ring, Descriptor, push}
use porth_core.Shuttle.{Shuttle, get_raw_memory_ptr, get_raw_memory_size}
use porth_core.Telemetry.{Stats}
use porth_core.Driver.{count_sent, count_dropped}

-- The fields of `PorthXDPPortal` that its methods read; 0 is the null pointer.
pub record Portal : Type 0 where
  pub umem : ℕ
  pub xsk : ℕ
  pub xsk_fd : Option ℕ  -- `none` is negative
  pub umem_start : ℕ  -- uint64_t
  pub umem_end : ℕ  -- uint64_t

-- The calls that `bridge_to_shuttle` makes to the rings of AF_XDP.
pub data Effect : Type 0 where
  wake_up : Effect  -- recvfrom
  fill : (addr : ℕ) → Effect  -- xsk_ring_prod__fill_addr and submit
  release_rx : Effect  -- xsk_ring_cons__release of one

-- What the libraries' calls return in one pass: a received descriptor if peek gives one, whether the fill
-- ring needs a wake-up, and whether a slot of it can be reserved. `base` is what
-- xsk_umem__add_offset_to_addr makes of the address.
pub record Nic : Type 0 where
  pub peek : Option Descriptor
  pub base : ℕ → ℕ
  pub needs_wakeup : Bool
  pub reserve : Bool

abbrev pub is_addr_valid : Portal → ℕ → ℕ → Bool
is_addr_valid p addr len = leb p.umem_start addr && leb (u64 (addr + len)) p.umem_end

unfoldable pub recycle_frame : Nic → ℕ → List Effect
recycle_frame nic addr = if nic.reserve then fill addr ∷ [] else []

-- `bind_shuttle_memory`; `created` is what xsk_umem__create leaves in m_umem, `none` where it fails.
unfoldable pub bind_shuttle_memory : Shuttle → Option ℕ → Portal → Bool × Portal
bind_shuttle_memory shuttle created p =
    let start = get_raw_memory_ptr shuttle in
    let p' : Portal = record p {
      umem_start = start;
      umem_end = u64 (start + get_raw_memory_size shuttle);
    } in
    elim created [ none ↦ (false, p') | some umem ↦ (true, record p' { umem = umem }) ]

-- The four ways out of `bridge_to_shuttle`, with the calls in their order, the ring and the statistics. A call
-- through a null ring pointer is outside: the shuttle is built.
unfoldable pub bridge_to_shuttle :
    ℕ → Portal → Nic → Ring → Option Stats → List Effect × Ring × Option Stats
unfolding recycle_frame
bridge_to_shuttle size p nic ring stats = elim nic.peek [
  | none ↦ (if nic.needs_wakeup then wake_up ∷ [] else [], ring, stats)
  | some desc ↦
      let packet_addr = nic.base desc.addr in
      let packet_len = desc.len in
      if not (is_addr_valid p packet_addr packet_len)
      then (recycle_frame nic desc.addr ++ release_rx ∷ [], ring, count_dropped stats)
      else (let (pushed, ring') =
            push size ring (record { addr = packet_addr; len = packet_len }) in
          if pushed
          then (release_rx ∷ recycle_frame nic desc.addr, ring', count_sent packet_len stats)
          else ([], ring', count_dropped stats))
]
