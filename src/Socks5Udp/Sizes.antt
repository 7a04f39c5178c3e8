-- ===== src/Socks5Udp/Sizes.antt =====
-- How many bytes the encoders of src/ProxyLaneHook/Socks5UdpCodec.cpp write.
use proxy_lane.Common.{
  ℕ, ◌+◌, ◌≡◌, Bool, false, not, ◌&&◌, Option, none, some, List, ◌++◌, arith, leb, ◌==◌, length,
  length-append,
}
use proxy_lane.Socks5Udp.{
  SockaddrIn, SockaddrIn6, Payload, encode_ipv4, encode_ipv6, encode_domain, payload_bytes,
  network_port,
}

-- A packet was written, and has at most so many bytes.
abbrev pub fits : ℕ → Option (List ℕ) → Bool
fits limit none = false
fits limit (some packet) = leb (length packet) limit

pub fits-encode_ipv4 :
    (capacity : ℕ) (to : SockaddrIn) (body : List ℕ)
    → length to.address + length to.port ≡ 6
    → fits capacity (encode_ipv4 false capacity (some to) (Payload.bytes body))
      ≡ leb (10 + length body) capacity
unfolding encode_ipv4 payload_bytes
fits-encode_ipv4 capacity to body h =
    ground (arith, length-append to.address (to.port ++ body), length-append to.port body)

pub fits-encode_ipv6 :
    (capacity : ℕ) (to : SockaddrIn6) (body : List ℕ)
    → length to.address + length to.port ≡ 18
    → fits capacity (encode_ipv6 false capacity (some to) (Payload.bytes body))
      ≡ leb (22 + length body) capacity
unfolding encode_ipv6 payload_bytes
fits-encode_ipv6 capacity to body h =
    ground (arith, length-append to.address (to.port ++ body), length-append to.port body)

pub fits-encode_domain :
    (capacity : ℕ) (domain : List ℕ) (port : ℕ) (body : List ℕ)
    → fits capacity (encode_domain false capacity (some domain) port (Payload.bytes body))
      ≡ not (length domain == 0)
        && leb (length domain) 255
        && leb (7 + length domain + length body) capacity
unfolding encode_domain payload_bytes
fits-encode_domain capacity domain port body = ground (
  arith,
  length-append domain (network_port port ++ body),
  length-append (network_port port) body,
)
