-- ===== src/Udp/Payload/Bounds.antt =====
-- The size that src/ProxyLaneHook/UdpPayloadPolicy.h allows, beside the packets that
-- src/ProxyLaneHook/Socks5UdpCodec.cpp writes.
use proxy_lane.Common.{ℕ, ◌+◌, ◌≡◌, ◌≢◌, true, false, none, some, List, arith, length}
use proxy_lane.Udp.Payload.{max_ipv4_udp_payload, is_allowed, max_payload, socks5_header_size}
use proxy_lane.Socks5Udp.{SockaddrIn, SockaddrIn6, Payload, encode_ipv4, encode_ipv6, encode_domain}
use proxy_lane.Socks5Udp.Sizes.{fits, fits-encode_ipv4, fits-encode_ipv6, fits-encode_domain}

-- A payload that is not empty is allowed exactly when the SOCKS5 packet that carries it fits in an
-- IPv4 datagram of 65507 bytes, for each of the three forms of the header, with addresses and
-- ports of the platform's sizes and a domain that is not empty; a domain of more than 255 bytes
-- allows none. (An empty payload is always allowed, and for such a domain not sent.)
pub is_allowed-encode :
    (to : SockaddrIn) (to6 : SockaddrIn6) (domain : List ℕ) (port : ℕ) (body : List ℕ)
    → length to.address + length to.port ≡ 6
    → length to6.address + length to6.port ≡ 18
    → length domain ≢ 0
    → length body ≢ 0
    → (is_allowed (length body) true none false
        ≡ fits max_ipv4_udp_payload
            (encode_ipv4 false max_ipv4_udp_payload (some to) (Payload.bytes body)))
      × (is_allowed (length body) true none true
          ≡ fits max_ipv4_udp_payload
              (encode_ipv6 false max_ipv4_udp_payload (some to6) (Payload.bytes body)))
      × (is_allowed (length body) true (some domain) false
          ≡ fits max_ipv4_udp_payload
              (encode_domain false max_ipv4_udp_payload (some domain) port (Payload.bytes body)))
unfolding is_allowed max_payload socks5_header_size
is_allowed-encode to to6 domain port body a b d n = (
  rw (fits-encode_ipv4 max_ipv4_udp_payload to body a) (ground arith),
  rw (fits-encode_ipv6 max_ipv4_udp_payload to6 body b) (ground arith),
  rw (fits-encode_domain max_ipv4_udp_payload domain port body) (ground arith),
)
