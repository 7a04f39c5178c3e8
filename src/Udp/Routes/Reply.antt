-- ===== src/Udp/Routes/Reply.antt =====
-- Replies find the route that asked, in src/ProxyLaneHook/UdpProxyTask.cpp.
use proxy_lane.Common.{
  All-middle, ℕ, ◌≡◌, refl, ◌∙◌, ◌↔◌, ◌⊎◌, inl, inr, true, false, Option, none, some, List, [], ◌∷◌,
  ◌++◌, arith, All, bytes_eq_sound, bytes_eq_refl, Bool-cases,
}
use proxy_lane.SockAddr.{SockAddr, In6, is_ipv6, get_dword_ip, same_address}
use proxy_lane.Prc.{has_domain_name, has_proxy_destination, get_proxy_destination}
use proxy_lane.Udp.Destination.{is_same_destination, can_share_association}
use proxy_lane.Udp.Destination.Sharing.{can_share_association_sym, is_same_destination_sym}
use proxy_lane.Udp.Routes.{Route, udp_destination, eligible, exact, select_loop, select_route}

module _ (ws : In6) where
  -- Two routes of one association: neither is redirected, they are not of one destination, and may
  -- share.
  abbrev pub Apart : Route → Route → Type 0
  Apart a b =
      (has_proxy_destination a.client ≡ false)
      × (has_proxy_destination b.client ≡ false)
      × (is_same_destination (udp_destination ws a.client) (udp_destination ws b.client) ≡ false)
      × (can_share_association (udp_destination ws a.client) (udp_destination ws b.client) ≡ true)

  abbrev pub PairwiseApart : List Route → Type 0
  PairwiseApart [] = Unit {0}
  PairwiseApart (r ∷ rs) = All (Apart r) rs × PairwiseApart rs

  Apart-sym : (a b : Route) → Apart a b → Apart b a
  Apart-sym a b (pa, pb, d, s) =
      (pb, pa, is_same_destination_sym _ _ ∙ d, can_share_association_sym _ _ ∙ s)

  -- The rest of the association, seen from one of its routes.
  Apart-before :
      (before : List Route) (r : Route) (after : List Route)
      → PairwiseApart (before ++ r ∷ after)
      → All (Apart r) before × All (Apart r) after
  Apart-before [] r after h = (tt, h.0)
  Apart-before (b ∷ bs) r after h = (
    (Apart-sym b r (All-middle (Apart b) bs r after h.0), (Apart-before bs r after h.1).0),
    (Apart-before bs r after h.1).1,
  )

  -- Routes before the one that matches exactly do not stop the loop.
  select_loop-exact :
      (source : SockAddr) (before : List Route) (r : Route) (after : List Route)
      (candidate : Option Route) (count : ℕ)
      → All (λ b. exact ws source b ≡ false) before
      → exact ws source r ≡ true
      → (select_loop ws source (before ++ r ∷ after) candidate count).0 ≡ some r
  unfolding select_loop
  select_loop-exact source [] r after candidate count h e = ground arith
  select_loop-exact source (b ∷ bs) r after candidate count h e =
      rw (h.0) (select_loop-exact source bs r after _ _ h.1 e)

  -- Routes of another port do not count.
  select_loop_skip :
      (source : SockAddr) (before rest : List Route) (candidate : Option Route) (count : ℕ)
      → All (λ b. eligible source b ≡ false) before
      → select_loop ws source (before ++ rest) candidate count
        ≡ select_loop ws source rest candidate count
  unfolding select_loop
  select_loop_skip source [] rest candidate count h = refl
  select_loop_skip source (b ∷ bs) rest candidate count h =
      rw (h.0) (select_loop_skip source bs rest candidate count h.1)

  select_loop-none :
      (source : SockAddr) (after : List Route) (candidate : Option Route) (count : ℕ)
      → All (λ b. eligible source b ≡ false) after
      → select_loop ws source after candidate count ≡ (none, candidate, count)
  unfolding select_loop
  select_loop-none source [] candidate count h = refl
  select_loop-none source (b ∷ bs) candidate count h =
      rw (h.0) (select_loop-none source bs candidate count h.1)

  -- A route given by a domain name is alone on its port.
  domain_alone :
      (source : SockAddr) (r b : Route)
      → Apart r b
      → eligible source r ≡ true
      → has_domain_name r.client ≡ true
      → eligible source b ≡ false
  unfolding can_share_association udp_destination get_proxy_destination
  domain_alone source r b a e d = ground arith

  domain_alone-All :
      (source : SockAddr) (r : Route) (bs : List Route)
      → All (Apart r) bs
      → eligible source r ≡ true
      → has_domain_name r.client ≡ true
      → All (λ b. eligible source b ≡ false) bs
  domain_alone-All source r [] h e d = tt
  domain_alone-All source r (b ∷ bs) h e d =
      (domain_alone source r b h.0 e d, domain_alone-All source r bs h.1 e d)

  select_loop_domain :
      (source : SockAddr) (r : Route) (after : List Route)
      → has_domain_name r.client ≡ true
      → eligible source r ≡ true
      → select_loop ws source (r ∷ after) none 0 ≡ select_loop ws source after (some r) 1
  unfolding select_loop
  select_loop_domain source r after d e = ground arith

  -- Among routes that are pairwise apart, a reply from the port of an open route that was given by a
  -- domain name goes to that route, from whatever address it comes.
  select_route_domain :
      (source : SockAddr) (before : List Route) (r : Route) (after : List Route)
      → PairwiseApart (before ++ r ∷ after)
      → has_domain_name r.client ≡ true
      → eligible source r ≡ true
      → select_route ws (before ++ r ∷ after) source ≡ some r
  unfolding select_route
  select_route_domain source before r after h d e =
      let (hb, ha) = Apart-before before r after h in
      rw
        (
          select_loop_skip source before (r ∷ after) none 0
              (domain_alone-All source r before hb e d),
          select_loop_domain source r after d e,
          select_loop-none source after (some r) 1 (domain_alone-All source r after ha e d),
        )
        refl

module _ (ws : In6) (are_equal_iff : (x y : List ℕ) → (ws.are_equal x y ≡ true) ↔ (x ≡ y)) where
  same_address_inv :
      (a s : SockAddr)
      → same_address ws a s ≡ true
      → (a.family ≡ s.family)
        × (((is_ipv6 a ≡ true) × (a.sin6_addr ≡ s.sin6_addr))
            ⊎ ((is_ipv6 a ≡ false) × (get_dword_ip ws a ≡ get_dword_ip ws s)))
  unfolding same_address
  same_address_inv a s h = ground (
    arith,
    are_equal_iff a.sin6_addr s.sin6_addr,
    bytes_eq_sound (get_dword_ip ws a) (get_dword_ip ws s),
  )

  -- Two addresses that a reply's address equals have one family and one address.
  same_address_both :
      (a b s : SockAddr)
      → same_address ws a s ≡ true
      → same_address ws b s ≡ true
      → (a.family ≡ b.family)
        × (((is_ipv6 a ≡ true) × (a.sin6_addr ≡ b.sin6_addr))
            ⊎ ((is_ipv6 a ≡ false) × (get_dword_ip ws a ≡ get_dword_ip ws b)))
  same_address_both a b s ha hb = ground (arith, same_address_inv a s ha, same_address_inv b s hb)

  exact_alone :
      (source : SockAddr) (r b : Route)
      → Apart ws r b
      → exact ws source r ≡ true
      → exact ws source b ≡ false
  unfolding is_same_destination udp_destination get_proxy_destination
  exact_alone source r b a e = elim (Bool-cases (exact ws source b)) [
    | inr no_match ↦ no_match
    | inl match ↦ ground (
      arith,
      same_address_both r.client.dst_addr b.client.dst_addr source,
      bytes_eq_refl b.client.dst_addr.sin6_addr,
      bytes_eq_refl (get_dword_ip ws b.client.dst_addr),
    )
  ]

  exact_alone-All :
      (source : SockAddr) (r : Route) (bs : List Route)
      → All (Apart ws r) bs
      → exact ws source r ≡ true
      → All (λ b. exact ws source b ≡ false) bs
  exact_alone-All source r [] h e = tt
  exact_alone-All source r (b ∷ bs) h e =
      (exact_alone source r b h.0 e, exact_alone-All source r bs h.1 e)

  -- Among routes that are pairwise apart, and with a platform test that compares the bytes of IPv6
  -- addresses, a reply from the address and port of an open route that was given by address goes to
  -- that route.
  pub select_route-exact :
      (source : SockAddr) (before : List Route) (r : Route) (after : List Route)
      → PairwiseApart ws (before ++ r ∷ after)
      → exact ws source r ≡ true
      → select_route ws (before ++ r ∷ after) source ≡ some r
  unfolding select_route
  select_route-exact source before r after h e =
      let hb = (Apart-before ws before r after h).0 in
      let found =
        select_loop-exact ws source before r after none 0 (exact_alone-All source r before hb e)
          e in
      ground (arith, found)
