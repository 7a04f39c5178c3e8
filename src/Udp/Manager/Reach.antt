-- ===== src/Udp/Manager/Reach.antt =====
-- The route that AddRoute of src/ProxyLaneHook/UdpProxyTask.cpp gives a client.
use proxy_lane.Common.{
  ℕ, ◌≡◌, refl, sym, ◌∙◌, inl, inr, Bool, true, false, ◌&&◌, ◌||◌, Option, none, some, List, [],
  ◌∷◌, ◌++◌, map, arith, ◌==◌, bytes_eq_refl, Bool-cases, to_lower,
}
use proxy_lane.SockAddr.{SockAddr, In6, get_dword_ip}
use proxy_lane.Prc.{PrcClient}
use proxy_lane.Udp.Destination.{is_same_destination, same_domain}
use proxy_lane.Udp.Routes.{Route, udp_destination, same_route, reuse_route, add_route}
use proxy_lane.Udp.Manager.{route_address}

same_domain_refl : (d : List ℕ) → same_domain (some d) (some d) ≡ true
unfolding same_domain
same_domain_refl d = bytes_eq_refl (map to_lower d)

module _ (ws : In6) where
  destination_refl :
      (c : PrcClient) → is_same_destination (udp_destination ws c) (udp_destination ws c) ≡ true
  unfolding is_same_destination udp_destination
  destination_refl c = ground (
    arith,
    same_domain_refl c.domain_name,
    bytes_eq_refl (get_dword_ip ws c.dst_addr),
    bytes_eq_refl c.dst_addr.sin6_addr,
  )

  -- An open route of the client's destination, redirected as it is, with the port.
  abbrev pub serves : PrcClient → ℕ → Route → Bool
  serves c port r =
      same_route ws c r
      && r.is_open
      && r.client.routing_flags == c.routing_flags
      && r.client.udp_addr.port == port

  abbrev pub reach : PrcClient → ℕ → List Route → Bool
  reach c port [] = false
  reach c port (r ∷ rs) = serves c port r || reach c port rs

  reach-append :
      (c : PrcClient) (port : ℕ) (rs : List Route) (r : Route)
      → serves c port r ≡ true
      → reach c port (rs ++ r ∷ []) ≡ true
  reach-append c port [] r h = ground (arith, h)
  reach-append c port (x ∷ rs) r h = ground (arith, reach-append c port rs r h)

  abbrev route_of : PrcClient → SockAddr → Option SockAddr → Route
  route_of c a e = record {
    client = record c { udp_addr = a };
    is_open = true;
    application_endpoint = e;
  }

  destination_again :
      (c : PrcClient) (a : SockAddr)
      → is_same_destination (udp_destination ws (record c { udp_addr = a })) (udp_destination ws c)
        ≡ true
  unfolding udp_destination
  destination_again c a = destination_refl c

  -- The route that was reused has the address that AddRoute returns.
  reuse_route-reach :
      (rs : List Route) (c : PrcClient) (local : Option SockAddr) (a : SockAddr)
      → (reuse_route ws rs c).1 ≡ true
      → route_address ws rs c local ≡ some a
      → reach c a.port (reuse_route ws rs c).0 ≡ true
  unfolding reuse_route route_address
  reuse_route-reach [] c local a h e = absurd (ground (arith, h))
  reuse_route-reach (r ∷ rs) c local a h e = elim (Bool-cases (same_route ws c r)) [
    | inr s ↦ rw s (
        ground
          (arith, reuse_route-reach rs c local a (ground (arith, s, h)) (ground (arith, s, e))))
    | inl s ↦ elim (Bool-cases r.is_open) [
      | inl o ↦
          let same : some r.client.udp_addr ≡ some a = ground (arith, s, o, e) in
          rw (s, o) (ground (arith, o, same, destination_again c r.client.udp_addr))
      | inr o ↦ absurd (ground (arith, s, o, h))
    ]
  ]

  reuse_route-address :
      (rs : List Route) (c : PrcClient) (local : Option SockAddr)
      → (reuse_route ws rs c).1 ≡ false
      → route_address ws rs c local ≡ local
  unfolding reuse_route route_address
  reuse_route-address [] c local h = refl
  reuse_route-address (r ∷ rs) c local h = ground (arith, reuse_route-address rs c local)

  pub add_route-reach :
      (rs : List Route) (c : PrcClient) (local : Option SockAddr) (a : SockAddr)
      → (add_route ws rs c local).1 ≡ true
      → route_address ws rs c local ≡ some a
      → reach c a.port (add_route ws rs c local).0 ≡ true
  unfolding add_route
  add_route-reach rs c local a h e = elim (Bool-cases (reuse_route ws rs c).1) [
    | inl b ↦ rw b (reuse_route-reach rs c local a b e)
    | inr b ↦
        let p : local ≡ some a = sym (reuse_route-address rs c local b) ∙ e in
        rw (b, p)
          (reach-append c a.port (reuse_route ws rs c).0 (route_of c a none)
            (ground (arith, destination_again c a)))
  ]
