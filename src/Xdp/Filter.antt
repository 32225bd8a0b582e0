-- ===== src/Xdp/Filter.antt =====
-- include/porth/porth_xdp_kern.c: the filter that the kernel runs on every packet of the card. The packet is the
-- bytes from `data` to `data_end`, so that a pointer comparison is one of lengths.
use porth_core.Base.{
  ℕ, zero, suc, ◌+◌, ◌*◌, ◌%◌, ◌≤◌, ◌<◌, ◌≡◌, ◌⊎◌, inl, inr, refl, arith, not, List, [], ◌∷◌,
  Option, none, some, ltb, ◌==◌, if◌then◌else◌, length, get_elem?, get_or, dec_lt, ℕ_discrete,
}

pub data Action : Type 0 where
  pass : Action  -- XDP_PASS
  redirect : (queue : ℕ) → Action  -- bpf_redirect_map to the socket of the queue

abbrev pub porth_sovereign_port : ℕ
porth_sovereign_port = 12345

-- A field of 16 bits in network order; `none` is a read beyond the packet.
abbrev pub read_u16 : List ℕ → ℕ → Option ℕ
read_u16 pkt i = elim (get_elem? pkt i) [
  | none ↦ none
  | some hi ↦ elim (get_elem? pkt (i + 1)) [ none ↦ none | some lo ↦ some (256 * hi + lo) ]
]

-- `porth_xdp_prog`. The Ethernet header has 14 bytes, the IP header 20 without options and `ihl * 4` with
-- them, the UDP header 8.
unfoldable pub porth_xdp_prog : List ℕ → ℕ → Option Action
porth_xdp_prog pkt rx_queue_index =
    if ltb (length pkt) 14 then some pass else elim (read_u16 pkt 12) [
      | none ↦ none
      | some h_proto ↦
          if not (h_proto == 0x0800)
          then some pass
          else if ltb (length pkt) 34
          then some pass
          else elim (get_elem? pkt 23) [
            | none ↦ none
            | some protocol ↦ if not (protocol == 17) then some pass else elim (get_elem? pkt 14) [
              | none ↦ none
              | some version_ihl ↦
                  let udp = 14 + version_ihl % 16 * 4 in
                  if ltb (length pkt) (udp + 8) then some pass else elim (read_u16 pkt (udp + 2)) [
                    | none ↦ none
                    | some dport ↦
                        if dport == porth_sovereign_port
                        then some (redirect rx_queue_index)
                        else some pass
                  ]
            ]
          ]
    ]

-- The packets that are meant for the portal: IPv4, UDP, to its port, with all headers inside.
pub record IsOurs (pkt : List ℕ) : Type 0 where
  pub headers : 34 ≤ length pkt
  pub ipv4 : 256 * get_or pkt 12 0 + get_or pkt 13 0 ≡ 0x0800
  pub udp : get_or pkt 23 0 ≡ 17
  pub udp_header : 14 + get_or pkt 14 0 % 16 * 4 + 8 ≤ length pkt
  pub port :
      256 * get_or pkt (14 + get_or pkt 14 0 % 16 * 4 + 2) 0
        + get_or pkt (14 + get_or pkt 14 0 % 16 * 4 + 2 + 1) 0
      ≡ 12345

get_elem?-get_or : (pkt : List ℕ) (i : ℕ) → i < length pkt → get_elem? pkt i ≡ some (get_or pkt i 0)
get_elem?-get_or [] i h = absurd (omega arith)
get_elem?-get_or (x ∷ pkt) zero h = refl
get_elem?-get_or (x ∷ pkt) (suc i) h = get_elem?-get_or pkt i (omega arith)

read_u16-get_or :
    (pkt : List ℕ) (i : ℕ)
    → i + 1 < length pkt
    → read_u16 pkt i ≡ some (256 * get_or pkt i 0 + get_or pkt (i + 1) 0)
read_u16-get_or pkt i h =
    rw (get_elem?-get_or pkt i (omega arith), get_elem?-get_or pkt (i + 1) h, read_u16) refl

-- On every packet the filter reads no byte beyond the packet's end, and redirects it to the socket of its
-- queue if it is IPv4 and UDP to port 12345 with all headers inside, and lets it pass if not.
pub porth_xdp_prog-decides :
    (pkt : List ℕ) (queue : ℕ)
    → ((porth_xdp_prog pkt queue ≡ some (redirect queue)) × IsOurs pkt)
      ⊎ ((porth_xdp_prog pkt queue ≡ some pass) × ¬ IsOurs pkt)
unfolding porth_xdp_prog
porth_xdp_prog-decides pkt queue = elim (dec_lt (length pkt) 14) [
  | yes p ↦ inr (ground arith, λ o. omega (arith, o.headers))
  | no p ↦
      let proto : read_u16 pkt 12 ≡ some (256 * get_or pkt 12 0 + get_or pkt 13 0) =
        read_u16-get_or pkt 12 (omega arith) in
      elim (ℕ_discrete (256 * get_or pkt 12 0 + get_or pkt 13 0) 2048) [
        | no n ↦ inr (ground (arith, proto), λ o. n o.ipv4)
        | yes e ↦ elim (dec_lt (length pkt) 34) [
          | yes q ↦ inr (ground (arith, proto), λ o. omega (arith, o.headers))
          | no q ↦
              let protocol = get_elem?-get_or pkt 23 (omega arith) in
              let ihl = get_elem?-get_or pkt 14 (omega arith) in
              let at : ℕ = 14 + get_or pkt 14 0 % 16 * 4 in
              elim (ℕ_discrete (get_or pkt 23 0) 17) [
                | no n ↦ inr (ground (arith, proto, protocol), λ o. n o.udp)
                | yes f ↦ elim (dec_lt (length pkt) (at + 8)) [
                  | yes s ↦
                      inr (ground (arith, proto, protocol, ihl), λ o. omega (arith, o.udp_header))
                  | no s ↦
                      let port : read_u16 pkt (at + 2)
                          ≡ some (256 * get_or pkt (at + 2) 0 + get_or pkt (at + 2 + 1) 0) =
                        read_u16-get_or pkt (at + 2) (omega arith) in
                      elim (ℕ_discrete (256 * get_or pkt (at + 2) 0 + get_or pkt (at + 2 + 1) 0)
                        12345) [
                          | no n ↦ inr (ground (arith, proto, protocol, ihl, port), λ o. n o.port)
                          | yes g ↦ inl (
                            ground (arith, proto, protocol, ihl, port),
                            record {
                              headers = omega arith;
                              ipv4 = e;
                              udp = f;
                              udp_header = omega arith;
                              port = g;
                            },
                          )
                        ]
                ]
              ]
        ]
      ]
]
