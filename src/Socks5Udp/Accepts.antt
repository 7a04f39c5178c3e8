-- ===== src/Socks5Udp/Accepts.antt =====
-- Which packets the decoder of src/ProxyLaneHook/Socks5UdpCodec.cpp accepts.
use proxy_lane.Common.{
  zero, ◌⊎◌, inr, none, Option, inl, [], suc, length-drop, ◌∷◌, ap, ◌<◌, ℕ, ◌+◌, ◌≤◌, ◌≡◌, some,
  List, arith, ◌==◌, if◌then◌else◌, length, get_or, drop, All, IsByte,
}
use proxy_lane.Socks5Udp.{
  DecodedPacket, decode, dispatch, decode_ipv4, decode_ipv6, decode_domain, max_header_size,
}

-- The header of an accepted packet by its address type.
abbrev pub header_size : List ℕ → ℕ
header_size packet =
    let kind = get_or packet 3 0 in
    if kind == 1 then 10 else if kind == 4 then 22 else 7 + get_or packet 4 0

get_or-IsByte : (xs : List ℕ) (i : ℕ) → All IsByte xs → get_or xs i 0 < 256
get_or-IsByte [] i h = omega arith
get_or-IsByte (x ∷ xs) zero h = h.0
get_or-IsByte (x ∷ xs) (suc i) h = get_or-IsByte xs i h.1

-- The parts of an accepted packet behind a header of `n` bytes.
abbrev Behind : ℕ → List ℕ → DecodedPacket → Type 0
Behind n packet d = (n ≤ length packet) × (d.payload ≡ drop n packet)

decode_ipv4_ok : (p : List ℕ) (d : DecodedPacket) → decode_ipv4 p ≡ some d → Behind 10 p d
unfolding decode_ipv4
decode_ipv4_ok p d e = ground arith

decode_ipv6_ok : (p : List ℕ) (d : DecodedPacket) → decode_ipv6 p ≡ some d → Behind 22 p d
unfolding decode_ipv6
decode_ipv6_ok p d e = ground arith

decode_domain_ok :
    (p : List ℕ) (d : DecodedPacket) → decode_domain p ≡ some d → Behind (7 + get_or p 4 0) p d
unfolding decode_domain
decode_domain_ok p d e = ground arith

-- Which decoder ran.
dispatch_cases :
    (a b c : Option DecodedPacket) (k : ℕ) (d : DecodedPacket)
    → (if k == 1 then a else if k == 3 then b else if k == 4 then c else none) ≡ some d
    → ((k ≡ 1) × (a ≡ some d)) ⊎ (((k ≡ 3) × (b ≡ some d)) ⊎ ((k ≡ 4) × (c ≡ some d)))
dispatch_cases a b c k d e = ground arith

dispatch_ok :
    (p : List ℕ) (d : DecodedPacket)
    → dispatch (get_or p 3 0) p ≡ some d
    → Behind (header_size p) p d
unfolding dispatch
dispatch_ok p d e = elim (dispatch_cases _ _ _ (get_or p 3 0) d e) [
  | inl (k, r) ↦ rw k (decode_ipv4_ok p d r)
  | inr (inl (k, r)) ↦ rw k (decode_domain_ok p d r)
  | inr (inr (k, r)) ↦ rw k (decode_ipv6_ok p d r)
]

decode-dispatch :
    (p : List ℕ) (d : DecodedPacket)
    → decode p ≡ some d
    → (get_or p 0 0 ≡ 0)
      × (get_or p 1 0 ≡ 0)
      × (get_or p 2 0 ≡ 0)
      × (dispatch (get_or p 3 0) p ≡ some d)
unfolding decode
decode-dispatch p d e = ground arith

header_size-le : (p : List ℕ) → All IsByte p → header_size p ≤ max_header_size
header_size-le p h = ground (arith, get_or-IsByte p 4 h)

-- An accepted packet is not a fragment, holds its whole header, and hands on exactly the bytes
-- behind it; a header of bytes has at most 262.
decode_accepts :
    (packet : List ℕ) (d : DecodedPacket)
    → All IsByte packet
    → decode packet ≡ some d
    → (get_or packet 0 0 ≡ 0)
      × (get_or packet 1 0 ≡ 0)
      × (get_or packet 2 0 ≡ 0)
      × (length packet ≡ header_size packet + length d.payload)
      × (d.payload ≡ drop (header_size packet) packet)
      × (header_size packet ≤ max_header_size)
decode_accepts packet d h e =
    let (p0, p1, p2, run) = decode-dispatch packet d e in
    let (whole, rest) = dispatch_ok packet d run in
    (
      p0,
      p1,
      p2,
      omega (arith, ap length rest, length-drop (header_size packet) packet),
      rest,
      header_size-le packet h,
    )
