-- ===== src/Prc.antt =====
-- The records of src/ProxyLaneHook/structinfo.h that hooks and host exchange (a hooked client, a
-- proxy profile, the settings), and src/ProxyLaneHook/ProxyTransportPolicy.h. C strings are bytes.
pub mod Transport
mod Tests
use proxy_lane.Common.{
  ℕ, ◌-◌, ◌%◌, Bool, true, false, not, ◌&&◌, ◌||◌, Option, none, some, List, [], ◌∷◌, map, ◌==◌,
  if◌then◌else◌, take, codes, same_text,
}
use proxy_lane.SockAddr.{SockAddr}

pub record PrcClient : Type 0 where
  pub pid : ℕ
  pub tid : ℕ
  pub process_create_time : ℕ
  pub socket_generation : ℕ
  pub socket_type : ℕ
  pub socket : ℕ
  pub accepted : ℕ
  pub domain_name : List ℕ
  pub src_addr : SockAddr
  pub dst_addr : SockAddr
  pub proxy_dst_addr : SockAddr
  pub routing_flags : ℕ
  pub ua_flag : ℕ
  pub udp_addr : SockAddr

abbrev pub is_empty : List ℕ → Bool
is_empty [] = true
is_empty (c ∷ cs) = false

-- IsDNValid.
abbrev pub has_domain_name : PrcClient → Bool
has_domain_name c = not (is_empty c.domain_name)

-- `(routingFlags & PRC_CLIENT_FLAG_DNS_REDIRECT) != 0`; the flag is bit 0.
unfoldable pub has_proxy_destination : PrcClient → Bool
has_proxy_destination c = c.routing_flags % 2 == 1

unfoldable pub get_proxy_destination : PrcClient → SockAddr
unfolding has_proxy_destination
get_proxy_destination c = if has_proxy_destination c then c.proxy_dst_addr else c.dst_addr

pub record ProxyInfo : Type 0 where
  pub item_name : List ℕ
  pub proxy_type : List ℕ
  pub proxy_host : List ℕ
  pub proxy_port : ℕ
  pub proxy_user : List ℕ
  pub proxy_pass : List ℕ
  pub transport : ℕ
  pub transport_psk : List ℕ

-- `string<N>::operator =`: at most N - 1 characters are kept, each cast to char.
pub assign : ℕ → List ℕ → List ℕ
assign n text = map (λ c. c % 256) (take (n - 1) text)

abbrev pub transport_plain : ℕ
transport_plain = 0

abbrev pub transport_gonc_tls_psk : ℕ
transport_gonc_tls_psk = 1

pub data ProxyType : Type 0 where
  noproxy socks4 socks4a socks5 http10 http11 : ProxyType

abbrev pub is_noproxy : ProxyType → Bool
is_noproxy noproxy = true
is_noproxy _ = false

-- GetProxyType, by `_stricmp`.
unfoldable pub get_proxy_type : List ℕ → ProxyType
get_proxy_type text =
    if same_text text (codes "SOCKS4")
    then socks4
    else if same_text text (codes "SOCKS4A")
    then socks4a
    else if same_text text (codes "SOCKS5")
    then socks5
    else if same_text text (codes "HTTP10")
    then http10
    else if same_text text (codes "HTTP") || same_text text (codes "HTTP11")
    then http11
    else noproxy

pub record ProxySettingsInfo : Type 0 where
  pub hook_tcp : Bool
  pub hook_udp : Bool
  pub dns_option : ℕ
  pub hook_create_process : Bool
  pub hook_lan_ip : Bool
  pub disable_llmnr : Bool
  pub disable_mdns : Bool
  pub block_udp : Bool
  pub block_ipv6 : Bool
  pub redirect_private_dns : Bool
  pub redirect_dns_addr : SockAddr

abbrev pub dnsopt_remote : ℕ
dnsopt_remote = 1

-- ProxyTransportPolicy. The key is overwritten with zeros.
unfoldable pub use_direct_connection : ProxyInfo → ProxyInfo
use_direct_connection p = record p {
  proxy_type = [];
  transport = transport_plain;
  transport_psk = [];
}

-- A null profile is `none`.
unfoldable pub uses_gonc_tls_psk : Option ProxyInfo → Bool
uses_gonc_tls_psk none = false
uses_gonc_tls_psk (some p) =
    not (is_noproxy (get_proxy_type p.proxy_type)) && p.transport == transport_gonc_tls_psk

unfoldable pub supports_gonc_tls_psk : ProxyType → Bool
supports_gonc_tls_psk socks5 = true
supports_gonc_tls_psk http10 = true
supports_gonc_tls_psk http11 = true
supports_gonc_tls_psk _ = false

unfoldable pub supports_udp_proxy : ProxyType → Bool
supports_udp_proxy noproxy = true
supports_udp_proxy socks5 = true
supports_udp_proxy _ = false
