-- ===== src/Dns.antt =====
-- Which DNS traffic goes where: DnsRedirectPolicy.h, DnsNamePolicy.h, DnsAddressFamilyPolicy.h,
-- Ipv6BlockPolicy.h and DirectIpv6Route.h of src/ProxyLaneHook. The system's route query is a
-- parameter.
pub mod Redirect
mod Tests
use proxy_lane.Common.{
  ℕ, ◌+◌, ◌*◌, ◌/◌, Bool, true, false, not, ◌&&◌, ◌||◌, Option, none, some, List, ◌∷◌, ltb, leb,
  ◌==◌, if◌then◌else◌, get_or, codes, same_text,
}
use proxy_lane.SockAddr.{
  SockAddr, In6, af_unspec, af_inet6, clear, is_ipv4, is_ipv6, is_ipv4_mapped, is_any, is_loopback,
  get_dword_ip, set_port,
}
use proxy_lane.Prc.{
  PrcClient, ProxyInfo, ProxySettingsInfo, dnsopt_remote, get_proxy_type, is_noproxy,
  has_domain_name, has_proxy_destination, get_proxy_destination,
}

abbrev pub private_ipv4 : List ℕ → Bool
private_ipv4 a =
    get_or a 0 0 == 10
    || (get_or a 0 0 == 172 && leb 16 (get_or a 1 0) && leb (get_or a 1 0) 31)
    || (get_or a 0 0 == 192 && get_or a 1 0 == 168)
    || (get_or a 0 0 == 169 && get_or a 1 0 == 254)

-- fc00::/7 and fe80::/10; `b & 0xfe` and `b & 0xc0` on a byte.
abbrev pub private_ipv6 : List ℕ → Bool
private_ipv6 a =
    get_or a 0 0 / 2 * 2 == 252 || (get_or a 0 0 == 254 && get_or a 1 0 / 64 * 64 == 128)

-- The destination port of DNS.
abbrev pub dns_port : ℕ
dns_port = 53

module _ (ws : In6) where
  unfoldable pub is_private_dns_address : SockAddr → Bool
  is_private_dns_address a =
      if is_ipv4 a || is_ipv4_mapped ws a
      then private_ipv4 (get_dword_ip ws a)
      else if is_ipv6 a
      then private_ipv6 a.sin6_addr
      else false

  unfoldable pub is_valid_public_resolver : SockAddr → Bool
  is_valid_public_resolver a =
      if is_any ws a || is_loopback ws a || is_ipv4_mapped ws a || is_private_dns_address a
      then false
      else if is_ipv4 a || is_ipv4_mapped ws a
      then ltb (get_or (get_dword_ip ws a) 0 0) 224
      else if is_ipv6 a
      then not (get_or a.sin6_addr 0 0 == 255)
      else false

  unfoldable pub should_redirect : PrcClient → ProxySettingsInfo → ProxyInfo → Bool
  should_redirect client settings proxy =
      settings.dns_option == dnsopt_remote
      && settings.redirect_private_dns
      && not (is_noproxy (get_proxy_type proxy.proxy_type))
      && client.dst_addr.port == dns_port
      && not (has_domain_name client)
      && is_private_dns_address client.dst_addr
      && is_valid_public_resolver settings.redirect_dns_addr

  -- Apply. The flag is bit 0 of `routingFlags`.
  unfoldable pub apply : PrcClient → ProxySettingsInfo → ProxyInfo → PrcClient × Bool
  apply client settings proxy =
      let plain = record client {
        routing_flags = client.routing_flags / 2 * 2;
        proxy_dst_addr = clear;
      } in
      if should_redirect plain settings proxy
      then (
        record plain {
          proxy_dst_addr = set_port settings.redirect_dns_addr dns_port;
          routing_flags = plain.routing_flags + 1;
        },
        true,
      )
      else (plain, false)

  unfoldable pub should_block : SockAddr → Bool
  should_block a = is_ipv6 a && not (ws.is_loopback a.sin6_addr) && not (ws.is_v4mapped a.sin6_addr)

  unfoldable pub needs_query : PrcClient → Bool
  needs_query client =
      let destination = get_proxy_destination client in
      if not (client.socket_type == 1)
        || (has_domain_name client && not (has_proxy_destination client))
      then false
      else if not (is_ipv6 destination)
          || is_ipv4_mapped ws destination
          || is_loopback ws destination
          || is_any ws destination
      then false
      else not (ws.is_multicast destination.sin6_addr)
        && (not (ws.is_linklocal destination.sin6_addr) || not (destination.scope_id == 0))

  -- ShouldReject. A null query is `none`; 1231 is ERROR_NETWORK_UNREACHABLE.
  unfoldable pub should_reject : PrcClient → ProxyInfo → Option (SockAddr → ℕ) → Bool
  should_reject client route none = false
  should_reject client route (some query) =
      is_noproxy (get_proxy_type route.proxy_type)
      && needs_query client
      && query (get_proxy_destination client) == 1231

-- A null name is `none`.
unfoldable pub equals_dns_name : Option (List ℕ) → Option (List ℕ) → Bool
equals_dns_name (some (l ∷ ls)) (some (r ∷ rs)) = same_text (l ∷ ls) (r ∷ rs)
equals_dns_name _ _ = false

unfoldable pub is_localhost : Option (List ℕ) → Bool
unfolding equals_dns_name
is_localhost name = equals_dns_name name (some (codes "localhost"))

pub data Decision : Type 0 where
  keep_requested_family force_ipv4 reject_ipv6 : Decision

unfoldable pub decide : ℕ → Bool → Decision
decide requested_family block_ipv6 =
    if requested_family == af_unspec
    then force_ipv4
    else if requested_family == af_inet6 && block_ipv6
    then reject_ipv6
    else keep_requested_family
