-- ===== src/Socks5Udp/RoundTrip.antt =====
-- What an encoder of src/ProxyLaneHook/Socks5UdpCodec.cpp wrote, the decoder reads.
use proxy_lane.Common.{
  drop-add, ℕ, ◌+◌, ◌≤◌, ◌<◌, ◌≡◌, refl, false, some, List, [], ◌∷◌, ◌++◌, arith, length, take,
  drop, length-append, take-append_left, drop-append_left,
}
use proxy_lane.Socks5Udp.{
  dispatch, SockaddrIn, SockaddrIn6, Payload, payload_bytes, af_inet, af_inet6, zero4, no_source6,
  sockaddr_in_size, sockaddr_in6_size, network_port, encode_ipv4, encode_ipv6, encode_domain,
  decode, decode_ipv4, decode_ipv6, decode_domain,
}

-- An address and a port of known lengths, taken out of a buffer again.
module _ (n : ℕ) (address port body : List ℕ) (ha : length address ≡ n) (hp : length port ≡ 2) where
  tail_port : drop n (address ++ (port ++ body)) ≡ port ++ body
  tail_port = drop-append_left n address (port ++ body) ha

  take_address : take n (address ++ (port ++ body)) ≡ address
  take_address = take-append_left n address (port ++ body) ha

  take_port : take 2 (drop n (address ++ (port ++ body))) ≡ port
  take_port = rw tail_port (take-append_left 2 port body hp)

  drop_port : drop (n + 2) (address ++ (port ++ body)) ≡ body
  drop_port =
      rw (drop-add n 2 (address ++ (port ++ body)), tail_port) (drop-append_left 2 port body hp)

  length_packet : length (address ++ (port ++ body)) ≡ n + 2 + length body
  length_packet = omega (arith, length-append address (port ++ body), length-append port body)

-- With room for the header and the payload the IPv4 encoder succeeds, and the decoder gives back the
-- address, the port and the payload.
pub decode-encode_ipv4 :
    (capacity : ℕ) (to : SockaddrIn) (payload : Payload) (body : List ℕ)
    → length to.address ≡ 4
    → length to.port ≡ 2
    → payload_bytes payload ≡ some body
    → 10 + length body ≤ capacity
    → (packet : List ℕ) × (encode_ipv4 false capacity (some to) payload ≡ some packet)
      × (length packet ≡ 10 + length body)
      × (decode packet
          ≡ some (record {
            source = record { family = af_inet; address = to.address; port = to.port };
            source6 = no_source6;
            source_length = sockaddr_in_size;
            domain = [];
            payload = body;
          }))
unfolding encode_ipv4 decode dispatch decode_ipv4
decode-encode_ipv4 capacity to payload body ha hp e room = (
  0 ∷ 0 ∷ 0 ∷ 1 ∷ (to.address ++ (to.port ++ body)),
  ground arith,
  omega (arith, length_packet 4 to.address to.port body ha hp),
  ground (
    arith,
    length_packet 4 to.address to.port body ha hp,
    take_address 4 to.address to.port body ha hp,
    take_port 4 to.address to.port body ha hp,
    drop_port 4 to.address to.port body ha hp,
  ),
)

-- With room for the header and the payload the IPv6 encoder succeeds, and the decoder gives back the
-- address, the port and the payload; the IPv4 source then keeps only its family.
decode-encode_ipv6 :
    (capacity : ℕ) (to : SockaddrIn6) (payload : Payload) (body : List ℕ)
    → length to.address ≡ 16
    → length to.port ≡ 2
    → payload_bytes payload ≡ some body
    → 22 + length body ≤ capacity
    → (packet : List ℕ) × (encode_ipv6 false capacity (some to) payload ≡ some packet)
      × (length packet ≡ 22 + length body)
      × (decode packet
          ≡ some (record {
            source = record { family = af_inet; address = zero4; port = 0 ∷ 0 ∷ [] };
            source6 = record { family = af_inet6; address = to.address; port = to.port };
            source_length = sockaddr_in6_size;
            domain = [];
            payload = body;
          }))
unfolding encode_ipv6 decode dispatch decode_ipv6
decode-encode_ipv6 capacity to payload body ha hp e room = (
  0 ∷ 0 ∷ 0 ∷ 4 ∷ (to.address ++ (to.port ++ body)),
  ground arith,
  omega (arith, length_packet 16 to.address to.port body ha hp),
  ground (
    arith,
    length_packet 16 to.address to.port body ha hp,
    take_address 16 to.address to.port body ha hp,
    take_port 16 to.address to.port body ha hp,
    drop_port 16 to.address to.port body ha hp,
  ),
)

-- The packet of a domain of n bytes.
abbrev domain_packet : List ℕ → ℕ → List ℕ → List ℕ
domain_packet name port body = 0 ∷ 0 ∷ 0 ∷ 3 ∷ length name ∷ (name ++ (network_port port ++ body))

module _ (name : List ℕ) (port : ℕ) (body : List ℕ) where
  domain_port : take 2 (drop (5 + length name) (domain_packet name port body)) ≡ network_port port
  domain_port =
      rw (drop-add 5 (length name) (domain_packet name port body))
        (take_port (length name) name (network_port port) body refl refl)

  domain_payload : drop (7 + length name) (domain_packet name port body) ≡ body
  domain_payload =
      let e : 7 + length name ≡ 5 + (length name + 2) = omega arith in
      rw (e, drop-add 5 (length name + 2) (domain_packet name port body))
        (drop_port (length name) name (network_port port) body refl refl)

-- With room for the packet the encoder accepts a domain of 1 to 255 bytes, and the decoder gives back
-- the domain, the port and the payload.
pub decode-encode_domain :
    (capacity : ℕ) (name : List ℕ) (port : ℕ) (payload : Payload) (body : List ℕ)
    → 0 < length name
    → length name ≤ 255
    → payload_bytes payload ≡ some body
    → 7 + length name + length body ≤ capacity
    → (packet : List ℕ) × (encode_domain false capacity (some name) port payload ≡ some packet)
      × (length packet ≡ 7 + length name + length body)
      × (decode packet
          ≡ some (record {
            source = record { family = af_inet; address = zero4; port = network_port port };
            source6 = no_source6;
            source_length = sockaddr_in_size;
            domain = name;
            payload = body;
          }))
unfolding encode_domain decode dispatch decode_domain
decode-encode_domain capacity name port payload body h0 h1 e room = (
  domain_packet name port body,
  ground arith,
  omega (arith, length_packet (length name) name (network_port port) body refl refl),
  ground (
    arith,
    length_packet (length name) name (network_port port) body refl refl,
    take_address (length name) name (network_port port) body refl refl,
    domain_port name port body,
    domain_payload name port body,
  ),
)
