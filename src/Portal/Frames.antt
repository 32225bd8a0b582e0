-- ===== src/Portal/Frames.antt =====
-- The frames that the portal hands out and reads, and what it owns.
use porth_core.Base.{
  ℕ, zero, suc, ◌+◌, ◌-◌, ◌*◌, ◌^◌, ◌≤◌, ◌<◌, ◌≡◌, ◌≢◌, ◌⊎◌, refl, ap, ◌∙◌, arith, List, [], ◌∷◌,
  ◌++◌, none, some, u64, length, get_elem?, dec_lt, inl, inr, ltb, ◌==◌, ◌&&◌, Bool, if◌then◌else◌,
}
use porth_core.Resource.{Resource, settle, same_self, give_back, settle-append}
use porth_core.Portal.{
  Received, Payload, poll_rx, poll_each, prime_from, prime_fill_ring, frame_size, umem_size,
  total_hdr_len, Owned, resource_of, release_all, destroy, move,
}

prime_from-elem :
    (n i k : ℕ)
    → k < n
    → (i + n) * frame_size ≤ umem_size
    → get_elem? (prime_from i n) k ≡ some ((i + k) * 4096)
unfolding prime_from
prime_from-elem zero i k h fits = absurd (omega arith)
prime_from-elem (suc n) i zero h fits = ap some (omega arith)
prime_from-elem (suc n) i (suc k) h fits =
    prime_from-elem n (i + 1) k (omega arith) (omega arith) ∙ ap some (omega arith)

length-prime_from : (n i : ℕ) → length (prime_from i n) ≡ n
unfolding prime_from
length-prime_from zero i = refl
length-prime_from (suc n) i = ap suc (length-prime_from n (i + 1))

-- For whatever number of slots up to 4096 the kernel reserves, priming hands out that many frames, the
-- k-th at 4096 k, all of them different and inside the memory.
pub prime_fill_ring-distinct :
    (n j k : ℕ)
    → n ≤ 4096
    → j < k
    → k < n
    → (length (prime_fill_ring n) ≡ n)
      × ((a b : ℕ) × (get_elem? (prime_fill_ring n) j ≡ some a)
          × (get_elem? (prime_fill_ring n) k ≡ some b)
          × (a + frame_size ≤ b)
          × (b + frame_size ≤ umem_size))
unfolding prime_fill_ring
prime_fill_ring-distinct n j k h p q = (
  length-prime_from n 0,
  (
    (0 + j) * 4096,
    (0 + k) * 4096,
    prime_from-elem n 0 j (omega arith) (omega arith),
    prime_from-elem n 0 k q (omega arith),
    omega arith,
    omega arith,
  ),
)

-- What is relied on of `std::string::max_size`: a text of any uint32_t length can be had, and none of 2^63 bytes or more.
pub record IsMaxSize (max_size : ℕ) : Type 0 where
  pub fits : 2 ^ 32 ≤ max_size
  pub below : max_size < 2 ^ 63

-- An IPv4 packet that is shorter than the three headers.
abbrev pub is_short : Received → Bool
is_short r = (r.ethertype.0 == 0x08) && (r.ethertype.1 == 0x00) && ltb r.len 42

-- A poll throws exactly on a packet that is short.
pub poll_rx-returned :
    {max_size : ℕ} (r : Received)
    → IsMaxSize max_size
    → r.len < 2 ^ 32
    → (poll_rx max_size (some r)).returned ≡ (if is_short r then none else some 1)
unfolding poll_rx poll_each
poll_rx-returned r m h = ground (arith, m.fits, m.below)

-- Of an IPv4 packet that lies in the memory, a poll asks for one text, where std::string has room for every uint32_t
-- length and for no text of 2^63 bytes. If the packet is as long as the three headers, the text lies in the
-- memory, the frame is handed back where a slot can be had for it, and the descriptor is released. If it is
-- shorter, the text has 2^64 - 42 bytes or more, the poll ends by the exception, and the frame is neither
-- handed back nor its descriptor released.
pub poll_rx-payload :
    {max_size : ℕ} (r : Received)
    → IsMaxSize max_size
    → r.ethertype ≡ (0x08, 0x00)
    → r.addr + r.len ≤ umem_size
    → let poll = poll_rx max_size (some r) in
      (q : Payload) × (poll.payloads ≡ q ∷ [])
      × (((42 ≤ r.len)
            × (q.start + q.size ≤ umem_size)
            × (poll.returned ≡ some 1)
            × (poll.recycled ≡ (if r.reserve then r.addr ∷ [] else []))
            × (poll.released ≡ 1))
          ⊎ ((r.len < 42)
              × (2 ^ 64 - 42 ≤ q.size)
              × (poll.returned ≡ none)
              × (poll.recycled ≡ [])
              × (poll.released ≡ 0)))
unfolding poll_rx poll_each
poll_rx-payload r m e fits = elim (dec_lt r.len 42) [
  | yes p ↦ (
    record { start = r.addr + total_hdr_len; size = u64 (r.len + 2 ^ 64 - total_hdr_len) },
    ground (arith, e, m.below),
    inr (
      p,
      omega arith,
      ground (arith, e, m.below),
      ground (arith, e, m.below),
      ground (arith, e, m.below),
    ),
  )
  | no p ↦ (
    record { start = r.addr + total_hdr_len; size = u64 (r.len + 2 ^ 64 - total_hdr_len) },
    ground (arith, e, m.fits),
    inl (
      omega arith,
      omega arith,
      ground (arith, e, m.fits),
      ground (arith, e, m.fits),
      ground (arith, e, m.fits),
    ),
  )
]

release_all-settles : (rs : List Resource) → settle (release_all rs) rs ≡ some []
release_all-settles [] = refl
release_all-settles (r ∷ rs) = rw (same_self r, settle, give_back) (release_all-settles rs)

released_again : (rs : List Resource) → rs ≢ [] → settle (release_all rs) [] ≡ none
released_again [] h = absurd (h refl)
released_again (r ∷ rs) h = refl

-- What a portal owns is given back once by its destructor; but after a move both objects own it, and where
-- it is anything at all their two destructors release it twice.
pub move-released_twice :
    (o : Owned)
    → resource_of o ≢ []
    → let (a, b) = move o in
      (settle (destroy a) (resource_of o) ≡ some [])
      × (settle (destroy a ++ destroy b) (resource_of o) ≡ none)
unfolding destroy move
move-released_twice o h =
    let once = release_all-settles (resource_of o) in
    (
      once,
      settle-append (release_all (resource_of o)) (release_all (resource_of o)) (resource_of o) once
          ∙ released_again (resource_of o) h,
    )
