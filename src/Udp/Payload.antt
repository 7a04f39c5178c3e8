-- ===== src/Udp/Payload.antt =====
-- How large a datagram may be: src/ProxyLaneHook/UdpPayloadPolicy.h. The domain is none for a null
-- pointer, and else its bytes.
pub mod Bounds
mod Tests
use proxy_lane.Common.{
  ℕ, ◌+◌, ◌-◌, Bool, not, Option, none, some, List, ltb, leb, ◌==◌, if◌then◌else◌, length,
}

abbrev pub max_ipv4_udp_payload : ℕ
max_ipv4_udp_payload = 65507

abbrev pub socks5_ipv4_header_size : ℕ
socks5_ipv4_header_size = 10

abbrev pub socks5_ipv6_header_size : ℕ
socks5_ipv6_header_size = 22

unfoldable pub socks5_header_size : Option (List ℕ) → ℕ
socks5_header_size none = socks5_ipv4_header_size
socks5_header_size (some domain) =
    if length domain == 0
    then socks5_ipv4_header_size
    else if ltb 255 (length domain)
    then max_ipv4_udp_payload + 1
    else 7 + length domain

unfoldable pub max_payload : Bool → Option (List ℕ) → Bool → ℕ
unfolding socks5_header_size
max_payload uses_socks5 domain is_ipv6 =
    let header_size = if is_ipv6 then socks5_ipv6_header_size else socks5_header_size domain in
    if not uses_socks5
    then max_ipv4_udp_payload
    else if leb header_size max_ipv4_udp_payload
    then max_ipv4_udp_payload - header_size
    else 0

unfoldable pub is_allowed : ℕ → Bool → Option (List ℕ) → Bool → Bool
unfolding max_payload
is_allowed payload_length uses_socks5 domain is_ipv6 =
    leb payload_length (max_payload uses_socks5 domain is_ipv6)
