-- ===== src/Udp/Destination.antt =====
-- Which destinations may share one SOCKS5 UDP association: src/ProxyLaneHook/UdpAssociationPolicy.h.
-- A domain is the bytes of its C string; `_stricmp` is the C library's, in the C locale.
pub mod Sharing
mod Tests
use proxy_lane.Common.{
  same_text, ℕ, Bool, true, false, not, ◌&&◌, ◌||◌, Option, none, some, List, [], ◌∷◌, leb, ◌==◌,
  if◌then◌else◌, bytes_eq, sub32,
}
use proxy_lane.SockAddr.{af_inet, af_inet6}

pub record Destination : Type 0 where
  pub has_domain : Bool
  pub domain : Option (List ℕ)
  pub family : ℕ
  pub ipv4 : List ℕ
  pub ipv6 : List ℕ
  pub port : ℕ

abbrev pub Bool_eq : Bool → Bool → Bool
Bool_eq true b = b
Bool_eq false b = not b

unfoldable pub same_domain : Option (List ℕ) → Option (List ℕ) → Bool
same_domain none right = false
same_domain (some l) none = false
same_domain (some l) (some r) = same_text l r

unfoldable pub is_same_destination : Destination → Destination → Bool
is_same_destination left right =
    if not (Bool_eq left.has_domain right.has_domain) || not (left.port == right.port)
    then false
    else if left.has_domain
    then same_domain left.domain right.domain
    else if not (left.family == right.family)
    then false
    else if left.family == af_inet6
    then bytes_eq left.ipv6 right.ipv6
    else bytes_eq left.ipv4 right.ipv4

unfoldable pub can_share_association : Destination → Destination → Bool
can_share_association left right =
    if is_same_destination left right
    then true
    else not (left.port == right.port && (left.has_domain || right.has_domain))

unfoldable pub should_enter_dormant : ℕ → ℕ → ℕ → Bool → Bool
should_enter_dormant now last_activity idle_timeout has_pending_work =
    not has_pending_work && leb idle_timeout (sub32 now last_activity)

abbrev pub mdns4 : List ℕ
mdns4 = 224 ∷ 0 ∷ 0 ∷ 251 ∷ []

abbrev pub mdns6 : List ℕ
mdns6 = 0xff ∷ 2 ∷ 0 ∷ 0 ∷ 0 ∷ 0 ∷ 0 ∷ 0 ∷ 0 ∷ 0 ∷ 0 ∷ 0 ∷ 0 ∷ 0 ∷ 0 ∷ 0xfb ∷ []

mdns6_address : Option (List ℕ) → Bool
mdns6_address none = false
mdns6_address (some ipv6) = bytes_eq ipv6 mdns6

-- The four bytes of the DWORD, and a pointer to sixteen.
pub is_mdns_destination : ℕ → List ℕ → Option (List ℕ) → ℕ → Bool
unfolding mdns6_address
is_mdns_destination family ipv4 ipv6 port =
    if not (port == 5353)
    then false
    else if family == af_inet
    then bytes_eq ipv4 mdns4
    else family == af_inet6 && mdns6_address ipv6
