-- ===== src/Dns/Redirect.antt =====
-- The redirect of src/ProxyLaneHook/DnsRedirectPolicy.h.
use proxy_lane.Common.{◌≡◌, true, false, arith}
use proxy_lane.SockAddr.{get_dword_ip, In6, is_any, is_loopback, is_ipv4_mapped, set_port}
use proxy_lane.Prc.{
  PrcClient, ProxyInfo, ProxySettingsInfo, has_domain_name, has_proxy_destination,
  get_proxy_destination,
}
use proxy_lane.Dns.{
  SockAddr, get_dword_ip, dns_port, is_private_dns_address, is_valid_public_resolver,
  should_redirect, apply,
}

module _ (ws : In6) where
  -- The application keeps the destination it asked for; the upstream is the configured resolver at
  -- port 53 exactly when the redirect applies, and the application's own destination otherwise,
  -- whatever redirect the record carried before.
  pub apply_destination :
      (client : PrcClient) (settings : ProxySettingsInfo) (proxy : ProxyInfo)
      → let r = apply ws client settings proxy in
        (r.0.dst_addr ≡ client.dst_addr)
        × (has_proxy_destination r.0 ≡ r.1)
        × (r.1 ≡ true → get_proxy_destination r.0 ≡ set_port settings.redirect_dns_addr dns_port)
        × (r.1 ≡ false → get_proxy_destination r.0 ≡ client.dst_addr)
  unfolding apply has_proxy_destination get_proxy_destination
  apply_destination client settings proxy = ground arith

  apply_applies :
      (client : PrcClient) (settings : ProxySettingsInfo) (proxy : ProxyInfo)
      → (apply ws client settings proxy).1 ≡ true
      → ((is_private_dns_address ws client.dst_addr ≡ true)
          × (client.dst_addr.port ≡ dns_port)
          × (has_domain_name client ≡ false))
        × (is_valid_public_resolver ws settings.redirect_dns_addr ≡ true)
  unfolding apply should_redirect
  apply_applies client settings proxy h = ground arith

  abbrev ResolverFacts : SockAddr → Type 0
  ResolverFacts b =
      (is_private_dns_address ws b ≡ false)
      × (is_any ws b ≡ false)
      × (is_loopback ws b ≡ false)
      × (is_ipv4_mapped ws b ≡ false)
      × (b.port ≡ dns_port)

  resolver_public :
      (a : SockAddr) → is_valid_public_resolver ws a ≡ true → ResolverFacts (set_port a dns_port)
  unfolding is_valid_public_resolver set_port is_private_dns_address is_any is_loopback
      is_ipv4_mapped get_dword_ip
  resolver_public a h = ground arith

  -- A redirect only leads from a private resolver at port 53, given by address, to an address that
  -- is neither private, unspecified, loopback nor mapped, at port 53.
  pub apply_public :
      (client : PrcClient) (settings : ProxySettingsInfo) (proxy : ProxyInfo)
      → let r = apply ws client settings proxy in
        let upstream = get_proxy_destination r.0 in
        r.1 ≡ true
        → (is_private_dns_address ws client.dst_addr ≡ true)
          × (client.dst_addr.port ≡ dns_port)
          × (has_domain_name client ≡ false)
          × (is_private_dns_address ws upstream ≡ false)
          × (is_any ws upstream ≡ false)
          × (is_loopback ws upstream ≡ false)
          × (is_ipv4_mapped ws upstream ≡ false)
          × (upstream.port ≡ dns_port)
  apply_public client settings proxy h =
      let (from, resolver) = apply_applies client settings proxy h in
      let to = (apply_destination client settings proxy).2 h in
      let p : ResolverFacts (get_proxy_destination (apply ws client settings proxy).0) =
        rw to (resolver_public settings.redirect_dns_addr resolver) in
      (from.0, from.1, from.2, p.0, p.1, p.2, p.3, p.4)

  -- Applying the policy again to its result changes nothing.
  pub apply_twice :
      (client : PrcClient) (settings : ProxySettingsInfo) (proxy : ProxyInfo)
      → apply ws (apply ws client settings proxy).0 settings proxy ≡ apply ws client settings proxy
  unfolding apply should_redirect
  apply_twice client settings proxy = ground arith
