-- ===== src/Socks5Udp/Tests.antt =====
-- Packets of the codec, there and back.
use proxy_lane.Common.{ℕ, ◌+◌, ◌≡◌, refl, false, some, List, [], ◌∷◌, arith, length}
use proxy_lane.Socks5Udp.{
  payload_bytes, SockaddrIn, DecodedPacket, bytes, encode_domain, decode, dispatch, decode_ipv4,
  af_inet, zero4, no_source6, sockaddr_in_size, network_port,
}
use proxy_lane.Socks5Udp.RoundTrip.{decode-encode_domain}

abbrev resolver : SockaddrIn
resolver = record { family = af_inet; address = 8 ∷ 8 ∷ 4 ∷ 4 ∷ []; port = 0 ∷ 53 ∷ [] }

-- `a.b`.
abbrev name : List ℕ
name = 97 ∷ 46 ∷ 98 ∷ []

abbrev query : List ℕ
query = 7 ∷ 9 ∷ []

query-bytes : payload_bytes (bytes query) ≡ some query
unfolding payload_bytes
query-bytes = refl

decode-encode_domain_example :
    (packet : List ℕ) × (encode_domain false 64 (some name) 53 (bytes query) ≡ some packet)
    × (length packet ≡ 7 + length name + length query)
    × (decode packet
        ≡ some (record {
          source = record { family = af_inet; address = zero4; port = network_port 53 };
          source6 = no_source6;
          source_length = sockaddr_in_size;
          domain = name;
          payload = query;
        }))
decode-encode_domain_example =
    decode-encode_domain 64 name 53 (bytes query) query (omega arith) (omega arith) query-bytes
      (omega arith)

abbrev reply : List ℕ
reply = 0 ∷ 0 ∷ 0 ∷ 1 ∷ 8 ∷ 8 ∷ 4 ∷ 4 ∷ 0 ∷ 53 ∷ query

abbrev decoded : DecodedPacket
decoded = record {
  source = resolver;
  source6 = no_source6;
  source_length = sockaddr_in_size;
  domain = [];
  payload = query;
}

decode-reply : decode reply ≡ some decoded
unfolding decode dispatch decode_ipv4
decode-reply = refl
