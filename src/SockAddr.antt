-- ===== src/SockAddr.antt =====
-- `_SockAddr` of src/ProxyLaneHook/structinfo.h: one address of either family in 28 bytes. The port
-- stands at the same place for both families and is kept here as the number that GetPort returns;
-- `sin_addr` is the four bytes at offset 4 (where an IPv6 address has its flow information),
-- `sin6_addr` the sixteen at offset 8, `scope_id` the last four. Addresses are bytes in network order.
-- SetIP is not modelled: it is a call of the system's text conversion.
pub mod Equality
mod Tests
use proxy_lane.Common.{
  ℕ, Bool, true, false, not, ◌&&◌, ◌||◌, Option, none, some, List, [], ◌∷◌, ◌++◌, ltb, ◌==◌,
  if◌then◌else◌, get_or, take, drop, bytes_eq,
}

abbrev pub af_unspec : ℕ
af_unspec = 0

abbrev pub af_inet : ℕ
af_inet = 2

abbrev pub af_inet6 : ℕ
af_inet6 = 23

pub record SockAddr : Type 0 where
  pub family : ℕ
  pub port : ℕ
  pub sin_addr : List ℕ
  pub sin6_addr : List ℕ
  pub scope_id : ℕ

abbrev pub zero4 : List ℕ
zero4 = 0 ∷ 0 ∷ 0 ∷ 0 ∷ []

abbrev pub zero16 : List ℕ
zero16 = zero4 ++ zero4 ++ zero4 ++ zero4

-- The tests of ws2ipdef.h on an IPv6 address.
pub record In6 : Type 0 where
  pub is_v4mapped : List ℕ → Bool
  pub is_unspecified : List ℕ → Bool
  pub is_loopback : List ℕ → Bool
  pub is_multicast : List ℕ → Bool
  pub is_linklocal : List ℕ → Bool
  pub are_equal : List ℕ → List ℕ → Bool

pub clear : SockAddr
clear = record { family = 0; port = 0; sin_addr = zero4; sin6_addr = zero16; scope_id = 0 }

-- A `SOCKADDR` of the given length. A short or foreign one changes nothing and is FALSE.
pub set : SockAddr → Option SockAddr → ℕ → SockAddr × Bool
set self none address_length = (self, false)
set self (some address) address_length =
    let required = if address.family == af_inet6 then 28 else 16 in
    if (not (address.family == af_inet) && not (address.family == af_inet6))
      || ltb address_length required
    then (self, false)
    else (
      if address.family == af_inet6 then address else record clear {
        family = af_inet;
        port = address.port;
        sin_addr = address.sin_addr;
        sin6_addr = take 8 address.sin6_addr ++ zero4 ++ zero4;
      },
      true,
    )

abbrev pub is_ipv4 : SockAddr → Bool
is_ipv4 a = a.family == af_inet

abbrev pub is_ipv6 : SockAddr → Bool
is_ipv6 a = a.family == af_inet6

module _ (ws : In6) where
  unfoldable pub is_ipv4_mapped : SockAddr → Bool
  is_ipv4_mapped a = is_ipv6 a && ws.is_v4mapped a.sin6_addr

  unfoldable pub is_any : SockAddr → Bool
  is_any a =
      if is_ipv6 a then ws.is_unspecified a.sin6_addr else is_ipv4 a && bytes_eq a.sin_addr zero4

  unfoldable pub is_loopback : SockAddr → Bool
  is_loopback a =
      if is_ipv6 a then ws.is_loopback a.sin6_addr else is_ipv4 a && get_or a.sin_addr 0 0 == 127

  -- The four bytes of the DWORD.
  unfoldable pub get_dword_ip : SockAddr → List ℕ
  get_dword_ip a =
      if is_ipv4 a
      then a.sin_addr
      else if is_ipv4_mapped a
      then take 4 (drop 12 a.sin6_addr)
      else zero4

  unfoldable pub same_address : SockAddr → SockAddr → Bool
  same_address a b =
      if not (a.family == b.family)
      then false
      else if is_ipv6 a
      then ws.are_equal a.sin6_addr b.sin6_addr
      else is_ipv4 a && bytes_eq (get_dword_ip a) (get_dword_ip b)

  -- `operator ==`.
  unfoldable pub equals : SockAddr → SockAddr → Bool
  equals a b = same_address a b && a.port == b.port

unfoldable pub set_port : SockAddr → ℕ → SockAddr
set_port a port = record a { port = port }

unfoldable pub set_ip_long : SockAddr → List ℕ → SockAddr
set_ip_long a ip =
    if is_ipv4 a
    then record a { sin_addr = ip }
    else record clear { family = af_inet; sin_addr = ip }
