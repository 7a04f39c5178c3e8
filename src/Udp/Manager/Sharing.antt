-- ===== src/Udp/Manager/Sharing.antt =====
-- How AddRoute of src/ProxyLaneHook/UdpProxyTask.cpp leaves the routes of a task apart.
use proxy_lane.Udp.Destination.Sharing.{
  is_same_destination_cong, can_share_cong, can_share_association_sym, is_same_destination_sym,
}
use proxy_lane.Udp.Routes.Reply.{Apart, PairwiseApart}
use proxy_lane.Prc.{has_proxy_destination, PrcClient}
use proxy_lane.Udp.Routes.{
  add_route, same_route, can_accept_route, Route, has_route, reuse_route, udp_destination,
}
use proxy_lane.SockAddr.{SockAddr, In6}
use proxy_lane.Common.{
  ◌&&◌, All-append, ◌||◌, ◌⊎◌, not, ◌++◌, inl, inr, Bool-cases, [], ◌∙◌, false, ◌∷◌, All, ◌≡◌, refl,
  ap, true, Option, none, some, List, arith,
}
use proxy_lane.Udp.Destination.{is_same_destination, can_share_association}

module _ (ws : In6) where
  -- A route of one destination and one redirection stands for another.
  abbrev Alike : Route → Route → Type 0
  Alike a b =
      (is_same_destination (udp_destination ws a.client) (udp_destination ws b.client) ≡ true)
      × (has_proxy_destination a.client ≡ has_proxy_destination b.client)

  Alike-Apart : (a b r : Route) → Alike a b → Apart ws a r → Apart ws b r
  Alike-Apart a b r h k = ground (
    arith,
    is_same_destination_cong (udp_destination ws a.client) (udp_destination ws b.client)
        (udp_destination ws r.client),
    can_share_cong (udp_destination ws a.client) (udp_destination ws b.client)
        (udp_destination ws r.client),
  )

  Apart-sym : (a b : Route) → Apart ws a b → Apart ws b a
  Apart-sym a b (pa, pb, d, s) =
      (pb, pa, is_same_destination_sym _ _ ∙ d, can_share_association_sym _ _ ∙ s)

  Alike-All :
      (a b : Route) (rs : List Route) → Alike a b → All (Apart ws a) rs → All (Apart ws b) rs
  Alike-All a b [] h k = tt
  Alike-All a b (r ∷ rs) h k = (Alike-Apart a b r h k.0, Alike-All a b rs h k.1)

  -- A client that asks again for the destination of a route is redirected as the route's was.
  abbrev pub Steady : PrcClient → List Route → Type 0
  Steady c routes =
      All (λ r. same_route ws c r ≡ true → has_proxy_destination r.client ≡ has_proxy_destination c)
        routes

  abbrev fresh : PrcClient → SockAddr → Route
  fresh c a = record {
    client = record c { udp_addr = a };
    is_open = true;
    application_endpoint = none;
  }

  abbrev reused : PrcClient → Route → Route
  reused c r = record r { client = record c { udp_addr = r.client.udp_addr } }

  Alike-fresh :
      (c : PrcClient) (a : SockAddr) (r : Route)
      → same_route ws c r ≡ true
      → has_proxy_destination r.client ≡ has_proxy_destination c
      → Alike r (fresh c a)
  unfolding udp_destination has_proxy_destination
  Alike-fresh c a r h k = (h, k)

  Alike-reused :
      (c : PrcClient) (r : Route)
      → same_route ws c r ≡ true
      → has_proxy_destination r.client ≡ has_proxy_destination c
      → Alike r (reused c r)
  unfolding udp_destination has_proxy_destination
  Alike-reused c r h k = (h, k)

  -- A route apart from all of them is apart from all that the first loop of AddRoute leaves.
  reuse_route-All :
      (b : Route) (rs : List Route) (c : PrcClient)
      → Steady c rs
      → All (Apart ws b) rs
      → All (Apart ws b) (reuse_route ws rs c).0
  unfolding reuse_route
  reuse_route-All b [] c st h = tt
  reuse_route-All b (r ∷ rs) c st h = elim (Bool-cases (same_route ws c r)) [
    | inr s ↦ rw s (h.0, reuse_route-All b rs c st.1 h.1)
    | inl s ↦ elim (Bool-cases r.is_open) [
      | inl o ↦
          rw (s, o)
            (
              Apart-sym (reused c r) b
                  (Alike-Apart r (reused c r) b (Alike-reused c r s (st.0 s)) (Apart-sym b r h.0)),
              h.1,
            )
      | inr o ↦ rw (s, o) (h.1)
    ]
  ]

  -- It is apart from the new route, too, where one of them is of the destination.
  has_route-Apart :
      (b : Route) (rs : List Route) (c : PrcClient) (a : SockAddr)
      → Steady c rs
      → All (Apart ws b) rs
      → has_route ws rs c ≡ true
      → Apart ws b (fresh c a)
  unfolding has_route
  has_route-Apart b [] c a st h k = absurd (ground (arith, k))
  has_route-Apart b (r ∷ rs) c a st h k = elim (Bool-cases (same_route ws c r)) [
    | inl s ↦
        Apart-sym (fresh c a) b
          (Alike-Apart r (fresh c a) b (Alike-fresh c a r s (st.0 s)) (Apart-sym b r h.0))
    | inr s ↦ has_route-Apart b rs c a st.1 h.1 (ground (arith, s, k))
  ]

  reuse_route-PairwiseApart :
      (rs : List Route) (c : PrcClient)
      → Steady c rs
      → PairwiseApart ws rs
      → PairwiseApart ws (reuse_route ws rs c).0
  unfolding reuse_route
  reuse_route-PairwiseApart [] c st h = tt
  reuse_route-PairwiseApart (r ∷ rs) c st h = elim (Bool-cases (same_route ws c r)) [
    | inr s ↦ rw s (reuse_route-All r rs c st.1 h.0, reuse_route-PairwiseApart rs c st.1 h.1)
    | inl s ↦ elim (Bool-cases r.is_open) [
      | inl o ↦ rw (s, o) (Alike-All r (reused c r) rs (Alike-reused c r s (st.0 s)) h.0, h.1)
      | inr o ↦ rw (s, o) (h.1)
    ]
  ]

  reuse_route-fresh :
      (rs : List Route) (c : PrcClient) (a : SockAddr)
      → Steady c rs
      → PairwiseApart ws rs
      → has_route ws rs c ≡ true
      → (reuse_route ws rs c).1 ≡ false
      → All (Apart ws (fresh c a)) (reuse_route ws rs c).0
  unfolding reuse_route has_route
  reuse_route-fresh [] c a st h k n = tt
  reuse_route-fresh (r ∷ rs) c a st h k n = elim (Bool-cases (same_route ws c r)) [
    | inr s ↦
        let k' : has_route ws rs c ≡ true = ground (arith, s, k) in
        rw s (
          Apart-sym r (fresh c a) (has_route-Apart r rs c a st.1 h.0 k'),
          reuse_route-fresh rs c a st.1 h.1 k' (ground (arith, s, n)),
        )
    | inl s ↦ elim (Bool-cases r.is_open) [
      | inl o ↦ absurd (ground (arith, s, o, n))
      | inr o ↦ rw (s, o) (Alike-All r (fresh c a) rs (Alike-fresh c a r s (st.0 s)) h.0)
    ]
  ]

  accepted-Apart :
      (r : Route) (c : PrcClient) (a : SockAddr)
      → not (has_proxy_destination r.client || has_proxy_destination c)
          && can_share_association (udp_destination ws r.client) (udp_destination ws c)
        ≡ true
      → same_route ws c r ≡ false
      → Apart ws r (fresh c a)
  unfolding udp_destination has_proxy_destination
  accepted-Apart r c a k n = ground arith

  -- A task that accepts a route and has none of its destination.
  accepted-fresh :
      (rs : List Route) (c : PrcClient) (a : SockAddr)
      → can_accept_route ws rs c ≡ true
      → has_route ws rs c ≡ false
      → ((reuse_route ws rs c).0 ≡ rs) × All (Apart ws (fresh c a)) rs
  unfolding reuse_route has_route can_accept_route
  accepted-fresh [] c a k n = (refl, tt)
  accepted-fresh (r ∷ rs) c a k n =
      let s : same_route ws c r ≡ false = ground (arith, n) in
      let rest = accepted-fresh rs c a (ground (arith, k)) (ground (arith, s, n)) in
      (
        rw s (ap (◌∷◌ r) rest.0),
        (Apart-sym r (fresh c a) (accepted-Apart r c a (ground (arith, k)) s), rest.1),
      )

  append-PairwiseApart :
      (rs : List Route) (n : Route)
      → PairwiseApart ws rs
      → All (Apart ws n) rs
      → PairwiseApart ws (rs ++ n ∷ [])
  append-PairwiseApart [] n h k = (tt, tt)
  append-PairwiseApart (r ∷ rs) n h k = (
    All-append (Apart ws r) rs (n ∷ []) h.0 (Apart-sym n r k.0, tt),
    append-PairwiseApart rs n h.1 k.1,
  )

  -- AddRoute on a task that has the destination's route, or that accepts it.
  pub add_route-PairwiseApart :
      (rs : List Route) (c : PrcClient) (local : Option SockAddr)
      → Steady c rs
      → PairwiseApart ws rs
      → (has_route ws rs c ≡ true) ⊎ (can_accept_route ws rs c ≡ true)
      → PairwiseApart ws (add_route ws rs c local).0
  unfolding add_route
  add_route-PairwiseApart rs c none st h k =
      let kept = reuse_route-PairwiseApart rs c st h in ground (arith, kept)
  add_route-PairwiseApart rs c (some a) st h k =
      let kept = reuse_route-PairwiseApart rs c st h in
      elim (Bool-cases (reuse_route ws rs c).1) [
        | inl b ↦ rw b kept
        | inr b ↦ rw b (
            append-PairwiseApart (reuse_route ws rs c).0 (fresh c a) kept
              (elim (Bool-cases (has_route ws rs c)) [
                | inl has ↦ reuse_route-fresh rs c a st h has b
                | inr has ↦
                    let can : can_accept_route ws rs c ≡ true = ground (arith, k, has) in
                    let (same, apart) = accepted-fresh rs c a can has in rw same apart
              ]))
      ]
