-- ===== src/Xdp/Lifecycle.antt =====
-- include/porth/PorthXDPPortal.hpp: opening and closing a portal. What libxdp returns is an argument.
use porth_core.Base.{
  ℕ, ◌≡◌, ◌≢◌, ◌↔◌, refl, arith, Option, none, some, List, [], ◌∷◌, ◌++◌, ◌==◌, if◌then◌else◌,
}
use porth_core.Resource.{Resource, Event, acquire, release, settle, socket, umem, same_self}
use porth_core.Shuttle.{Shuttle}
use porth_core.Xdp.{Portal, bind_shuttle_memory}

-- The constructor.
abbrev pub new_portal : Portal
new_portal = record { umem = 0; xsk = 0; xsk_fd = none; umem_start = 0; umem_end = 0 }

-- How `open_portal` ends.
pub data Opened : Type 0 where
  opened no_umem no_fd no_socket : Opened

-- What xsk_socket__create leaves in m_xsk (`none` where it fails and leaves it as it is), and what xsk_socket__fd
-- returns of it (`none` below 0).
unfoldable pub open_portal : Option ℕ → Option ℕ → Portal → Opened × Portal
open_portal created fd p =
    if p.umem == 0
    then (no_umem, p)
    else (let xsk : ℕ = elim created [ none ↦ p.xsk | some x ↦ x ] in
        let p' : Portal = record p { xsk = xsk; xsk_fd = fd } in
        elim fd [
          | none ↦ (no_fd, p')
          | some _ ↦ elim created [ none ↦ (no_socket, p') | some _ ↦ (opened, p') ]
        ])

abbrev pub socket_of : ℕ → Resource
socket_of x = record { kind = socket; handle = x; size = 0 }

abbrev pub umem_of : ℕ → Resource
umem_of u = record { kind = umem; handle = u; size = 0 }

-- The destructor.
unfoldable pub close : Portal → List Event
close p =
    (if p.xsk == 0 then [] else release (socket_of p.xsk) ∷ [])
    ++ (if p.umem == 0 then [] else release (umem_of p.umem) ∷ [])

-- What libxdp hands out in one life of a portal.
abbrev pub handed : (ℕ → Resource) → Option ℕ → List Event
handed r none = []
handed r (some x) = acquire (r x) ∷ []

-- A life of a portal: `bind_shuttle_memory` and `open_portal`, each once, the second only if the first does
-- not throw, and the destructor in any case. With what was handed out and given back, and what `open_portal`
-- said, if it was called.
unfoldable pub life : Shuttle → Option ℕ → Option ℕ → Option ℕ → List Event × Option Opened
unfolding open_portal close bind_shuttle_memory
life shuttle u x fd =
    let (bound, p) = bind_shuttle_memory shuttle u new_portal in
    if bound
    then (let (how, p') = open_portal x fd p in
        (handed umem_of u ++ (handed socket_of x ++ close p'), some how))
    else (close p, none)

-- Whatever libxdp returns, as long as no pointer that it hands out is null, a portal's life gives back exactly
-- what it was handed, and it opens exactly with a region, a socket and a descriptor.
pub life-Settled :
    (shuttle : Shuttle) (u x fd : Option ℕ)
    → u ≢ some 0
    → x ≢ some 0
    → (settle (life shuttle u x fd).0 [] ≡ some [])
      × (((life shuttle u x fd).1 ≡ some opened) ↔ ((u ≢ none) × (x ≢ none) × (fd ≢ none)))
unfolding life open_portal close bind_shuttle_memory
life-Settled shuttle none x fd hu hx = (refl, (λ h. absurd (cc), λ h. absurd (h.0 refl)))
life-Settled shuttle (some u) none none hu hx =
    (ground (arith, same_self (umem_of u)), (λ h. ground arith, λ h. absurd (h.1 refl)))
life-Settled shuttle (some u) none (some d) hu hx =
    (ground (arith, same_self (umem_of u)), (λ h. ground arith, λ h. absurd (h.1 refl)))
life-Settled shuttle (some u) (some x) none hu hx = (
  ground (arith, same_self (umem_of u), same_self (socket_of x)),
  (λ h. ground arith, λ h. absurd (h.2 refl)),
)
life-Settled shuttle (some u) (some x) (some d) hu hx = (
  ground (arith, same_self (umem_of u), same_self (socket_of x)),
  (λ h. (λ e. absurd (cc), λ e. absurd (cc), λ e. absurd (cc)), λ h. ground arith),
)
