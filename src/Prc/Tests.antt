-- ===== src/Prc/Tests.antt =====
-- A proxy profile made direct.
use proxy_lane.Common.{◌≡◌, refl, true, false, some, [], codes}
use proxy_lane.Prc.{
  ProxyInfo, noproxy, get_proxy_type, use_direct_connection, uses_gonc_tls_psk, supports_udp_proxy,
  transport_gonc_tls_psk,
}
use proxy_lane.Prc.Transport.{use_direct_connection_lem}

abbrev tls_profile : ProxyInfo
tls_profile = record {
  item_name = codes "office";
  proxy_type = codes "socks5";
  proxy_host = codes "10.0.0.1";
  proxy_port = 1080;
  proxy_user = codes "u";
  proxy_pass = codes "p";
  transport = transport_gonc_tls_psk;
  transport_psk = codes "key";
}

tls_profile_uses_psk : uses_gonc_tls_psk (some tls_profile) ≡ true
unfolding uses_gonc_tls_psk get_proxy_type
tls_profile_uses_psk = refl

use_direct_connection_lem_example :
    let d = use_direct_connection tls_profile in
    (get_proxy_type d.proxy_type ≡ noproxy)
    × (uses_gonc_tls_psk (some d) ≡ false)
    × (supports_udp_proxy (get_proxy_type d.proxy_type) ≡ true)
    × (d.transport_psk ≡ [])
    × (d.proxy_host ≡ tls_profile.proxy_host)
    × (d.proxy_port ≡ tls_profile.proxy_port)
    × (d.proxy_user ≡ tls_profile.proxy_user)
    × (d.proxy_pass ≡ tls_profile.proxy_pass)
use_direct_connection_lem_example = use_direct_connection_lem tls_profile
