-- ===== src/Dns/Tests.antt =====
-- A query to a private resolver, and one to a public resolver.
use proxy_lane.Common.{
  ℕ, ◌≡◌, refl, true, false, some, List, [], ◌∷◌, ◌++◌, ◌==◌, get_or, take, bytes_eq, codes,
}
use proxy_lane.SockAddr.{
  SockAddr, In6, af_inet, zero4, zero16, is_any, is_loopback, is_ipv4_mapped, get_dword_ip,
}
use proxy_lane.Prc.{
  PrcClient, ProxyInfo, ProxySettingsInfo, dnsopt_remote, has_domain_name, get_proxy_destination,
  get_proxy_type,
}
use proxy_lane.Dns.{
  dns_port, is_private_dns_address, is_valid_public_resolver, should_redirect, apply, is_localhost,
  equals_dns_name, decide, force_ipv4,
}
use proxy_lane.Dns.Redirect.{apply_public}

abbrev bytes_in6 : In6
bytes_in6 = record {
  is_v4mapped = λ a. bytes_eq (take 12 a) (zero4 ++ zero4 ++ (0 ∷ 0 ∷ 255 ∷ 255 ∷ []));
  is_unspecified = λ a. bytes_eq a zero16;
  is_loopback = λ a. bytes_eq a (zero4 ++ zero4 ++ zero4 ++ (0 ∷ 0 ∷ 0 ∷ 1 ∷ []));
  is_multicast = λ a. get_or a 0 0 == 255;
  is_linklocal = λ a. bytes_eq (take 2 a) (254 ∷ 128 ∷ []);
  are_equal = bytes_eq;
}

abbrev endpoint : List ℕ → ℕ → SockAddr
endpoint ip port = record {
  family = af_inet;
  port = port;
  sin_addr = ip;
  sin6_addr = zero16;
  scope_id = 0;
}

abbrev router : SockAddr
router = endpoint (192 ∷ 168 ∷ 1 ∷ 1 ∷ []) 53

abbrev public_resolver : SockAddr
public_resolver = endpoint (8 ∷ 8 ∷ 8 ∷ 8 ∷ []) 0

abbrev client : PrcClient
client = record {
  pid = 1;
  tid = 2;
  process_create_time = 3;
  socket_generation = 4;
  socket_type = 2;
  socket = 5;
  accepted = 0;
  domain_name = [];
  src_addr = endpoint zero4 4000;
  dst_addr = router;
  proxy_dst_addr = endpoint zero4 0;
  routing_flags = 0;
  ua_flag = 0;
  udp_addr = endpoint zero4 0;
}

abbrev settings : ProxySettingsInfo
settings = record {
  hook_tcp = true;
  hook_udp = true;
  dns_option = dnsopt_remote;
  hook_create_process = true;
  hook_lan_ip = false;
  disable_llmnr = false;
  disable_mdns = false;
  block_udp = false;
  block_ipv6 = false;
  redirect_private_dns = true;
  redirect_dns_addr = public_resolver;
}

abbrev proxy : ProxyInfo
proxy = record {
  item_name = [];
  proxy_type = codes "SOCKS5";
  proxy_host = codes "10.0.0.1";
  proxy_port = 1080;
  proxy_user = [];
  proxy_pass = [];
  transport = 0;
  transport_psk = [];
}

redirected : (apply bytes_in6 client settings proxy).1 ≡ true
unfolding apply should_redirect is_private_dns_address is_valid_public_resolver get_proxy_type
    is_any is_loopback is_ipv4_mapped get_dword_ip
redirected = refl

localhost : is_localhost (some (codes "LocalHost")) ≡ true
unfolding is_localhost equals_dns_name
localhost = refl

unspecified_is_ipv4 : decide 0 true ≡ force_ipv4
unfolding decide
unspecified_is_ipv4 = refl

apply_public_example :
    let r = apply bytes_in6 client settings proxy in
    let upstream = get_proxy_destination r.0 in
    (is_private_dns_address bytes_in6 router ≡ true)
    × (router.port ≡ dns_port)
    × (has_domain_name client ≡ false)
    × (is_private_dns_address bytes_in6 upstream ≡ false)
    × (is_any bytes_in6 upstream ≡ false)
    × (is_loopback bytes_in6 upstream ≡ false)
    × (is_ipv4_mapped bytes_in6 upstream ≡ false)
    × (upstream.port ≡ dns_port)
apply_public_example = apply_public bytes_in6 client settings proxy redirected
