-- ===== src/Xdp/Bridge.antt =====
-- What a pass of `bridge_to_shuttle` does to the ring, the frames and the statistics.
use mathlib.Core.Path.{subst}
use porth_core.Base.{
  All, sym, Option-cases, ℕ, suc, ◌+◌, ◌-◌, ◌^◌, ◌≤◌, ◌<◌, ◌≡◌, ◌↔◌, inl, inr, arith, true, false,
  List, [], ◌∷◌, ◌++◌, Option, none, some, Bool-cases, length,
}
use porth_core.Ring.{Ring, Descriptor}
use porth_core.Ring.Inv.{IsSize, IsValid}
use porth_core.Ring.Span.{contents}
use porth_core.Ring.Refine.{push_cases}
use porth_core.Shuttle.{Shuttle, get_raw_memory_ptr, get_raw_memory_size}
use porth_core.Telemetry.{Stats}
use porth_core.Driver.{count_sent, count_dropped}
use porth_core.Xdp.{
  Portal, Nic, Effect, release_rx, is_addr_valid, recycle_frame, bridge_to_shuttle,
  bind_shuttle_memory,
}

-- A packet that lies in the region.
abbrev pub InUmem : Portal → ℕ → ℕ → Type 0
InUmem p addr len = (p.umem_start ≤ addr) × (addr + len ≤ p.umem_end)

-- Where address and length do not wrap, the test is membership in the region.
pub is_addr_valid_iff :
    (p : Portal) (addr len : ℕ)
    → addr + len < 2 ^ 64
    → (is_addr_valid p addr len ≡ true) ↔ InUmem p addr len
is_addr_valid_iff p addr len fits = (λ h. ground arith, λ h. ground arith)

-- The test can be passed from outside: a packet whose end wraps round 2^64 is taken for one in the region,
-- though it begins after the region's end.
pub is_addr_valid_wraps :
    (p : Portal) (addr len : ℕ)
    → addr < 2 ^ 64
    → len < 2 ^ 32
    → p.umem_start ≤ addr
    → p.umem_end < 2 ^ 64 - 2 ^ 32
    → 2 ^ 64 ≤ addr + len
    → addr + len ≤ 2 ^ 64 + p.umem_end
    → (is_addr_valid p addr len ≡ true) × (p.umem_end < addr)
is_addr_valid_wraps p addr len a l s low w e = (ground arith, omega arith)

abbrev pub packet_of : Nic → Descriptor → Descriptor
packet_of nic desc = record { addr = nic.base desc.addr; len = desc.len }

-- How a pass with a received descriptor ends.
pub data Ended (size : ℕ) (p : Portal) (nic : Nic) (r : Ring) (stats : Option Stats)
    (desc : Descriptor) : List Effect × Ring × Option Stats → Type 0 where
  -- The address is refused: the frame is recycled and released, and the drop counted.
  outside :
      is_addr_valid p (nic.base desc.addr) desc.len ≡ false
      → Ended size p nic r stats desc
          (recycle_frame nic desc.addr ++ release_rx ∷ [], r, count_dropped stats)
  -- The packet is queued behind what is there, and counted; the frame is released and recycled.
  queued :
      {q : Ring}
      → is_addr_valid p (nic.base desc.addr) desc.len ≡ true
      → contents size q ≡ contents size r ++ packet_of nic desc ∷ []
      → IsValid size q
      → Ended size p nic r stats desc
          (release_rx ∷ recycle_frame nic desc.addr, q, count_sent desc.len stats)
  -- The ring is full: the drop is counted, and the frame neither released nor recycled.
  stuck :
      is_addr_valid p (nic.base desc.addr) desc.len ≡ true
      → suc (length (contents size r)) ≡ size
      → Ended size p nic r stats desc ([], r, count_dropped stats)

-- Every pass with a received descriptor, over a valid ring, ends in one of the three ways of `Ended`: the
-- address is refused, and the frame recycled, released and counted as dropped; or the packet is queued
-- in order and counted, and the frame released and recycled; or the ring holds SIZE - 1 descriptors, the
-- drop is counted, and the frame is neither released nor recycled.
pub bridge_to_shuttle-Ended :
    {size : ℕ} {r : Ring} (p : Portal) (nic : Nic) (stats : Option Stats) (desc : Descriptor)
    → IsSize size
    → IsValid size r
    → nic.peek ≡ some desc
    → Ended size p nic r stats desc (bridge_to_shuttle size p nic r stats)
unfolding bridge_to_shuttle
bridge_to_shuttle-Ended {size} {r} p nic stats desc z v got =
    elim (Bool-cases (is_addr_valid p (nic.base desc.addr) desc.len)) [
      | inr bad ↦ rw (got, bad) (outside bad)
      | inl ok ↦ elim (push_cases (packet_of nic desc) z v) [
        | inl (no_room, e) ↦ rw (got, ok, e) (stuck ok no_room)
        | inr (q, e, more, w, room) ↦ rw (got, ok, e) (queued ok more w)
      ]
    ]

-- A sequence of passes.
unfoldable pub bridge_all : ℕ → Portal → List Nic → Ring → Option Stats → Ring × Option Stats
bridge_all size p [] r stats = (r, stats)
bridge_all size p (nic ∷ nics) r stats =
    let (effects, r', stats') = bridge_to_shuttle size p nic r stats in
    bridge_all size p nics r' stats'

-- The descriptors of a ring lie in the region.
abbrev pub Inside : ℕ → Portal → Ring → Type 0
Inside size p r = All (λ d. InUmem p d.addr d.len) (contents size r)

-- No received packet's end wraps round.
abbrev pub IsFlat : Nic → Type 0
IsFlat nic = elim nic.peek [ none ↦ Unit | some desc ↦ nic.base desc.addr + desc.len < 2 ^ 64 ]

All-snoc :
    (Q : Descriptor → Type 0) (xs : List Descriptor) {x : Descriptor}
    → All Q xs
    → Q x
    → All Q (xs ++ x ∷ [])
All-snoc Q [] qs q = (q, tt)
All-snoc Q (y ∷ xs) (p, qs) q = (p, All-snoc Q xs qs q)

Ended-Inside :
    {size : ℕ} {p : Portal} {nic : Nic} {r : Ring} {stats : Option Stats} {desc : Descriptor}
    {out : List Effect × Ring × Option Stats}
    → Ended size p nic r stats desc out
    → nic.base desc.addr + desc.len < 2 ^ 64
    → IsValid size r
    → Inside size p r
    → IsValid size out.1 × Inside size p out.1
Ended-Inside (outside bad) flat v ins = (v, ins)
Ended-Inside {p = p} {nic = nic} {r = r} {desc = desc} (queued ok more w) flat v ins = (
  w,
  subst (All (λ d. InUmem p d.addr d.len)) (sym more) (
      All-snoc (λ d. InUmem p d.addr d.len) (contents _ r) ins
        ((is_addr_valid_iff p (nic.base desc.addr) desc.len flat).0 ok)),
)
Ended-Inside (stuck ok full) flat v ins = (v, ins)

pass-Inside :
    {size : ℕ} {r : Ring} (p : Portal) (nic : Nic) (stats : Option Stats)
    → IsSize size
    → IsValid size r
    → IsFlat nic
    → Inside size p r
    → IsValid size (bridge_to_shuttle size p nic r stats).1
      × Inside size p (bridge_to_shuttle size p nic r stats).1
unfolding bridge_to_shuttle
pass-Inside {size} {r} p nic stats z v flat ins = elim (Option-cases nic.peek) [
  | inl e ↦ rw e (v, ins)
  | inr (desc, e) ↦
      Ended-Inside (bridge_to_shuttle-Ended p nic stats desc z v e) (ground (arith, e)) v ins
]

-- Whatever the card delivers in any number of passes, as long as no packet's end wraps round 2^64: a valid
-- ring whose descriptors lie in the registered region stays valid, and its descriptors keep lying there.
-- (Nothing else is pushed meanwhile.)
pub bridge_all-Inside :
    {size : ℕ} (p : Portal) (nics : List Nic) (r : Ring) (stats : Option Stats)
    → IsSize size
    → IsValid size r
    → All IsFlat nics
    → Inside size p r
    → IsValid size (bridge_all size p nics r stats).0
      × Inside size p (bridge_all size p nics r stats).0
unfolding bridge_all
bridge_all-Inside p [] r stats z v flat ins = (v, ins)
bridge_all-Inside {size} p (nic ∷ nics) r stats z v (flat, rest) ins =
    let (w, inside) = pass-Inside p nic stats z v flat ins in
    let out = bridge_to_shuttle size p nic r stats in
    bridge_all-Inside p nics out.1 out.2 z w rest inside

-- The addresses of AF_XDP are offsets into the registered memory, and `bind_shuttle_memory` sets the bounds
-- of the test to virtual addresses: where the card's address is an offset inside the region, and the
-- region stands at an address no lower than its size, every received packet is dropped, whatever the
-- ring holds.
pub bind-drops :
    (size : ℕ) (shuttle : Shuttle) (umem : ℕ) (p : Portal) (nic : Nic) (r : Ring)
    (stats : Option Stats) (desc : Descriptor)
    → nic.peek ≡ some desc
    → nic.base desc.addr < get_raw_memory_size shuttle
    → get_raw_memory_size shuttle ≤ get_raw_memory_ptr shuttle
    → bridge_to_shuttle size (bind_shuttle_memory shuttle (some umem) p).1 nic r stats
      ≡ (recycle_frame nic desc.addr ++ release_rx ∷ [], r, count_dropped stats)
unfolding bridge_to_shuttle bind_shuttle_memory
bind-drops size shuttle umem p nic r stats desc got offset above = ground (arith, got)
