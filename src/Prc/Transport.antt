-- ===== src/Prc/Transport.antt =====
-- The per-connection normalisation of src/ProxyLaneHook/ProxyTransportPolicy.h.
use proxy_lane.Common.{◌≡◌, refl, true, false, some, []}
use proxy_lane.Prc.{
  ProxyInfo, noproxy, get_proxy_type, use_direct_connection, uses_gonc_tls_psk, supports_udp_proxy,
}

-- A profile turned into a direct connection has no proxy type, no TLS-PSK transport and no key left,
-- still may carry UDP, and keeps its endpoint and credentials.
pub use_direct_connection_lem :
    (p : ProxyInfo)
    → let d = use_direct_connection p in
      (get_proxy_type d.proxy_type ≡ noproxy)
      × (uses_gonc_tls_psk (some d) ≡ false)
      × (supports_udp_proxy (get_proxy_type d.proxy_type) ≡ true)
      × (d.transport_psk ≡ [])
      × (d.proxy_host ≡ p.proxy_host)
      × (d.proxy_port ≡ p.proxy_port)
      × (d.proxy_user ≡ p.proxy_user)
      × (d.proxy_pass ≡ p.proxy_pass)
unfolding use_direct_connection uses_gonc_tls_psk get_proxy_type supports_udp_proxy
use_direct_connection_lem p = (refl, refl, refl, refl, refl, refl, refl, refl)
