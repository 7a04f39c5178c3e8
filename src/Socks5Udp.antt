-- ===== src/Socks5Udp.antt =====
-- The UDP header of SOCKS5: src/ProxyLaneHook/Socks5UdpCodec.h and Socks5UdpCodec.cpp. A buffer is
-- the list of its bytes, a C string the list of its bytes before the NUL, and an address or a port
-- in network order the list of its bytes.
pub mod RoundTrip
pub mod Accepts
pub mod Sizes
mod Tests
use proxy_lane.Common.{
  ◌>>=◌, ◌>>◌, ℕ, zero, suc, ◌+◌, ◌/◌, ◌%◌, Bool, not, ◌&&◌, Option, none, some, List, [], ◌∷◌,
  ◌++◌, leb, ◌==◌, if◌then◌else◌, guard, length, get_or, take, drop,
}

pub record SockaddrIn : Type 0 where
  pub family : ℕ
  pub address : List ℕ
  pub port : List ℕ

-- The flow information and the scope stay zero here.
pub record SockaddrIn6 : Type 0 where
  pub family : ℕ
  pub address : List ℕ
  pub port : List ℕ

abbrev pub af_inet : ℕ
af_inet = 2

abbrev pub af_inet6 : ℕ
af_inet6 = 23

abbrev pub zero4 : List ℕ
zero4 = 0 ∷ 0 ∷ 0 ∷ 0 ∷ []

abbrev pub no_source6 : SockaddrIn6
no_source6 = record { family = 0; address = zero4 ++ zero4 ++ zero4 ++ zero4; port = 0 ∷ 0 ∷ [] }

pub record DecodedPacket : Type 0 where
  pub source : SockaddrIn
  pub source6 : SockaddrIn6
  pub source_length : ℕ
  pub domain : List ℕ
  pub payload : List ℕ

-- `sizeof(SOCKADDR_IN)` and `sizeof(SOCKADDR_IN6)`.
abbrev pub sockaddr_in_size : ℕ
sockaddr_in_size = 16

abbrev pub sockaddr_in6_size : ℕ
sockaddr_in6_size = 28

abbrev pub max_header_size : ℕ
max_header_size = 262

-- `payload` with `payloadLength`: bytes, a null pointer that claims a length, or a negative length.
pub data Payload : Type 0 where
  bytes : List ℕ → Payload
  null : ℕ → Payload
  negative : Payload

pub payload_bytes : Payload → Option (List ℕ)
payload_bytes (bytes xs) = some xs
payload_bytes (null zero) = some []
payload_bytes (null (suc n)) = none
payload_bytes negative = none

-- `htons` of a port below 65536, as bytes.
abbrev pub network_port : ℕ → List ℕ
network_port port = (port / 256 % 256) ∷ (port % 256) ∷ []

-- The encoders return what they wrote; `none` is SOCKET_ERROR and a null argument. The returned int
-- is the number of bytes written.
pub encode_ipv4 : Bool → ℕ → Option SockaddrIn → Payload → Option (List ℕ)
encode_ipv4 output_null capacity destination payload = do
  guard (not output_null)
  to ← destination
  body ← payload_bytes payload
  guard (leb (10 + length body) capacity)
  some (0 ∷ 0 ∷ 0 ∷ 1 ∷ (to.address ++ (to.port ++ body)))

pub encode_ipv6 : Bool → ℕ → Option SockaddrIn6 → Payload → Option (List ℕ)
encode_ipv6 output_null capacity destination payload = do
  guard (not output_null)
  to ← destination
  body ← payload_bytes payload
  guard (leb (22 + length body) capacity)
  some (0 ∷ 0 ∷ 0 ∷ 4 ∷ (to.address ++ (to.port ++ body)))

pub encode_domain : Bool → ℕ → Option (List ℕ) → ℕ → Payload → Option (List ℕ)
encode_domain output_null capacity domain port payload = do
  guard (not output_null)
  name ← domain
  body ← payload_bytes payload
  let domain_length = length name
  guard (not (domain_length == 0) && leb domain_length 255)
  guard (leb (7 + domain_length + length body) capacity)
  some (0 ∷ 0 ∷ 0 ∷ 3 ∷ domain_length ∷ (name ++ (network_port port ++ body)))

-- `packet + from`, `count` bytes.
slice : List ℕ → ℕ → ℕ → List ℕ
slice packet from count = take count (drop from packet)

decode_ipv4 : List ℕ → Option DecodedPacket
unfolding slice
decode_ipv4 packet = do
  guard (leb 10 (length packet))
  some (record {
    source = record { family = af_inet; address = slice packet 4 4; port = slice packet 8 2 };
    source6 = no_source6;
    source_length = sockaddr_in_size;
    domain = [];
    payload = drop 10 packet;
  })

decode_domain : List ℕ → Option DecodedPacket
unfolding slice
decode_domain packet = do
  guard (leb 7 (length packet))
  let domain_length = get_or packet 4 0
  guard (not (domain_length == 0) && leb (7 + domain_length) (length packet))
  some (record {
    source = record {
      family = af_inet;
      address = zero4;
      port = slice packet (5 + domain_length) 2;
    };
    source6 = no_source6;
    source_length = sockaddr_in_size;
    domain = slice packet 5 domain_length;
    payload = drop (7 + domain_length) packet;
  })

decode_ipv6 : List ℕ → Option DecodedPacket
unfolding slice
decode_ipv6 packet = do
  guard (leb 22 (length packet))
  some (record {
    source = record { family = af_inet; address = zero4; port = 0 ∷ 0 ∷ [] };
    source6 = record { family = af_inet6; address = slice packet 4 16; port = slice packet 20 2 };
    source_length = sockaddr_in6_size;
    domain = [];
    payload = drop 22 packet;
  })

dispatch : ℕ → List ℕ → Option DecodedPacket
dispatch kind packet =
    if kind == 1
    then decode_ipv4 packet
    else if kind == 3
    then decode_domain packet
    else if kind == 4
    then decode_ipv6 packet
    else none

-- The arguments are non-null. `none` is FALSE.
pub decode : List ℕ → Option DecodedPacket
decode packet = do
  guard (leb 4 (length packet))
  guard (get_or packet 0 0 == 0 && get_or packet 1 0 == 0 && get_or packet 2 0 == 0)
  dispatch (get_or packet 3 0) packet
