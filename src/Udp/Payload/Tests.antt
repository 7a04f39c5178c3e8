-- ===== src/Udp/Payload/Tests.antt =====
-- One byte to each kind of destination.
use proxy_lane.Common.{ℕ, ◌≡◌, refl, true, false, none, some, List, [], ◌∷◌, ◌++◌, arith, codes}
use proxy_lane.Socks5Udp.{
  SockaddrIn, SockaddrIn6, Payload, encode_ipv4, encode_ipv6, encode_domain, af_inet, af_inet6,
  zero4,
}
use proxy_lane.Socks5Udp.Sizes.{fits}
use proxy_lane.Udp.Payload.{is_allowed, max_payload, socks5_header_size, max_ipv4_udp_payload}
use proxy_lane.Udp.Payload.Bounds.{is_allowed-encode}

abbrev to : SockaddrIn
to = record { family = af_inet; address = zero4; port = 0 ∷ 53 ∷ [] }

abbrev to6 : SockaddrIn6
to6 = record { family = af_inet6; address = zero4 ++ zero4 ++ zero4 ++ zero4; port = 0 ∷ 53 ∷ [] }

abbrev domain : List ℕ
domain = codes "a.example"

abbrev body : List ℕ
body = 1 ∷ []

max_payload-domain : max_payload true (some domain) false ≡ 65491
unfolding max_payload socks5_header_size
max_payload-domain = refl

is_allowed-encode_example :
    (is_allowed 1 true none false
      ≡ fits max_ipv4_udp_payload
          (encode_ipv4 false max_ipv4_udp_payload (some to) (Payload.bytes body)))
    × (is_allowed 1 true none true
        ≡ fits max_ipv4_udp_payload
            (encode_ipv6 false max_ipv4_udp_payload (some to6) (Payload.bytes body)))
    × (is_allowed 1 true (some domain) false
        ≡ fits max_ipv4_udp_payload
            (encode_domain false max_ipv4_udp_payload (some domain) 53 (Payload.bytes body)))
is_allowed-encode_example =
    is_allowed-encode to to6 domain 53 body refl refl (λ e. omega (arith, e))
      (λ e. omega (arith, e))
