-- ===== src/Udp/Manager/Registered.antt =====
-- What a registration leaves, under OnNewTask of src/ProxyLaneHook/ProxyTaskMgr.cpp.
use proxy_lane.Common.{
  not, Option-cases, ℕ, ◌≡◌, refl, sym, ◌∙◌, inl, inr, Bool, true, false, ◌&&◌, ◌||◌, Option, none,
  some, List, [], ◌∷◌, ◌++◌, map, arith, bytes_eq_refl, Bool-cases, to_lower,
}
use proxy_lane.SockAddr.{SockAddr, In6, get_dword_ip}
use proxy_lane.Prc.{ProxyInfo, PrcClient}
use proxy_lane.Udp.Routes.{add_route}
use proxy_lane.Udp.Manager.Placing.{
  accepts, owns, is_stale, fresh_task, place, listed, on_new_task, placed_or, register_route_port,
  routed, start_task, add_to, offer,
}
use proxy_lane.Udp.Manager.{
  any, sweep, profile_of, can_start, is_started, Manager, Ports, matches_association, Managed,
  route_address,
}
use proxy_lane.Udp.Manager.Reach.{reach, add_route-reach}

-- The client that AddRoute returns is the one that asked, with the route's address.
abbrev Addressed : PrcClient → PrcClient → Type 0
Addressed c c' = c'.src_addr ≡ c.src_addr

module _ (ws : In6) where
  -- The port answers for the client.
  abbrev pub Answers : PrcClient → ℕ → Ports → Type 0
  Answers c port ports = ports port ≡ record {
    client_ip = get_dword_ip ws c.src_addr;
    client_port = c.src_addr.port;
    proxy_port = port;
  }

module _ {T R : Type 0} (ws : In6) where
  -- A task of the client's socket and proxy has such a route.
  abbrev pub reached : PrcClient → ProxyInfo → ℕ → List (Managed T R) → Bool
  reached c p port [] = false
  reached c p port (t ∷ ts) =
      (matches_association c p t && reach ws c port t.task.routes) || reached c p port ts

  reached-append :
      (c : PrcClient) (p : ProxyInfo) (port : ℕ) (ts : List (Managed T R)) (t : Managed T R)
      → matches_association c p t && reach ws c port t.task.routes ≡ true
      → reached c p port (ts ++ t ∷ []) ≡ true
  reached-append c p port [] t h = ground (arith, h)
  reached-append c p port (x ∷ ts) t h = ground (arith, reached-append c p port ts t h)

  add_to-reach :
      (local : Option SockAddr) (c : PrcClient) (t : Managed T R) (c' : PrcClient)
      → (add_to ws local c t).1 ≡ some c'
      → Addressed c c' × (reach ws c c'.udp_addr.port (add_to ws local c t).0.task.routes ≡ true)
  unfolding add_to
  add_to-reach local c t c' h = elim (Option-cases (route_address ws t.task.routes c local)) [
    | inl n ↦ absurd (ground (arith, n, h))
    | inr (a, e) ↦
        let added : (add_route ws t.task.routes c local).1 ≡ true = ground (arith, h) in
        let same : some (record c { udp_addr = a }) ≡ some c' = ground (arith, e, added, h) in
        let reaches = add_route-reach ws t.task.routes c local a added e in
        ground (arith, same, reaches)
  ]

  add_to-matches :
      (local : Option SockAddr) (c : PrcClient) (p : ProxyInfo) (t : Managed T R)
      → matches_association c p (add_to ws local c t).0 ≡ matches_association c p t
  unfolding add_to matches_association
  add_to-matches local c p t = refl

  abbrev Placed : PrcClient → ProxyInfo → List (Managed T R) × Option PrcClient → Type 0
  Placed c p placed =
      (c' : PrcClient)
      → placed.1 ≡ some c'
      → Addressed c c' × (reached c p c'.udp_addr.port placed.0 ≡ true)

  offer-Placed :
      (local : Option SockAddr) (c : PrcClient) (p : ProxyInfo) (fits : Managed T R → Bool)
      (ts : List (Managed T R)) (placed : List (Managed T R) × Option PrcClient)
      → ((t : Managed T R) → fits t ≡ true → matches_association c p t ≡ true)
      → offer ws local c fits ts ≡ some placed
      → Placed c p placed
  unfolding offer
  offer-Placed local c p fits [] placed can e c' h = absurd (ground (arith, e))
  offer-Placed local c p fits (t ∷ ts) placed can e c' h = elim (Bool-cases (fits t)) [
    | inl f ↦
        let placed_here : (add_to ws local c t).1 ≡ some c' = ground (arith, f, e, h) in
        let tasks : (add_to ws local c t).0 ∷ ts ≡ placed.0 = ground (arith, f, e) in
        let (same, reaches) = add_to-reach local c t c' placed_here in
        let matches = add_to-matches local c p t in
        (same, rw (sym tasks) (ground (arith, matches, can t f, reaches)))
    | inr f ↦ elim (Option-cases (offer ws local c fits ts)) [
      | inl n ↦ absurd (ground (arith, f, n, e))
      | inr (rest, q) ↦
          let tasks : t ∷ rest.0 ≡ placed.0 = ground (arith, f, q, e) in
          let answer : rest.1 ≡ some c' = ground (arith, f, q, e, h) in
          let (same, reaches) = offer-Placed local c p fits ts rest can q c' answer in
          (same, rw (sym tasks) (ground (arith, reaches)))
    ]
  ]

  abbrev pub Registered : PrcClient → ProxyInfo → Manager T R × Bool → Type 0
  Registered c p r =
      r.1 ≡ true
      → (port : ℕ) × (reached c p port r.0.tasks ≡ true) × Answers ws c port r.0.port_states

  register-Answers :
      (c c' : PrcClient) (m : Manager T R)
      → Addressed c c'
      → Answers ws c c'.udp_addr.port (register_route_port ws c' m).port_states
  unfolding register_route_port
  register-Answers c c' m h = ground (arith, h)

  routed-Registered :
      (c : PrcClient) (p : ProxyInfo) (m : Manager T R)
      (placed : List (Managed T R) × Option PrcClient)
      → Placed c p placed
      → Registered c p (routed ws m placed)
  unfolding routed
  routed-Registered c p m (tasks, none) h r = absurd (ground (arith, r))
  routed-Registered c p m (tasks, some c') h r =
      let (same, reaches) = h c' refl in
      (c'.udp_addr.port, reaches, register-Answers c c' (record m { tasks = tasks }) same)

  placed_or-Registered :
      (c : PrcClient) (p : ProxyInfo) (m : Manager T R)
      (found : Option (List (Managed T R) × Option PrcClient)) (otherwise : Manager T R × Bool)
      → ((placed : List (Managed T R) × Option PrcClient) → found ≡ some placed → Placed c p placed)
      → Registered c p otherwise
      → Registered c p (placed_or ws m found otherwise)
  unfolding placed_or
  placed_or-Registered c p m none otherwise h k = k
  placed_or-Registered c p m (some placed) otherwise h k =
      routed-Registered c p m placed (h placed refl)

  listed-Registered :
      (c : PrcClient) (p : ProxyInfo) (m : Manager T R) (t : Managed T R) (found : Option PrcClient)
      → ((c' : PrcClient)
          → found ≡ some c'
          → Addressed c c'
            × (matches_association c p t && reach ws c c'.udp_addr.port t.task.routes ≡ true))
      → Registered c p (listed ws m t found)
  unfolding listed
  listed-Registered c p m t none h r = absurd (ground (arith, r))
  listed-Registered c p m t (some c') h r =
      let (same, reaches) = h c' refl in
      let m' = record m { tasks = m.tasks ++ t ∷ []; timers = m.timers || not (any m.tasks) } in
      (
        c'.udp_addr.port,
        unfold register_route_port in reached-append c p c'.udp_addr.port m.tasks t reaches,
        register-Answers c c' m' same,
      )

  module _ (key : ProxyInfo → List ℕ) where
    fresh_task-matches :
        (now : ℕ) (c : PrcClient) (p : ProxyInfo) (m : Manager T R)
        → matches_association c p (fresh_task ws key now c p m) ≡ true
    unfolding matches_association
    fresh_task-matches now c p m =
        ground (arith, bytes_eq_refl p.transport_psk, bytes_eq_refl (map to_lower p.proxy_host))

    start_task-Registered :
        (now : ℕ) (local : Option SockAddr) (c : PrcClient) (p : ProxyInfo) (m : Manager T R)
        → Registered c p (start_task ws key now local c p m)
    unfolding start_task
    start_task-Registered now local c p m =
        let t = fresh_task ws key now c p m in
        let matches = add_to-matches local c p t ∙ fresh_task-matches now c p m in
        listed-Registered c p m (add_to ws local c t).0 (add_to ws local c t).1 (λ c' h.
          let (same, reaches) = add_to-reach local c t c' h in
          (same, ground (arith, matches, reaches)))

    place-Registered :
        (now : ℕ) (local : Option SockAddr) (c : PrcClient) (p : ProxyInfo) (m : Manager T R)
        → Registered c p (place ws key now local c p m)
    unfolding place
    place-Registered now local c p m =
        placed_or-Registered c p m (offer ws local c (owns ws c p) m.tasks) _
          (λ placed e.
            offer-Placed local c p (owns ws c p) m.tasks placed (λ t f. ground (arith, f)) e)
          (placed_or-Registered c p m (offer ws local c (accepts ws c p) m.tasks) _
            (λ placed e.
              offer-Placed local c p (accepts ws c p) m.tasks placed (λ t f. ground (arith, f)) e)
            (start_task-Registered now local c p m))

    -- A registration that succeeds leaves a task of the socket and of the proxy with an open route to
    -- the destination, and the route's port answers for the client's address and port; this holds
    -- whether a task had the route, accepted it or was made for it.
    pub on_new_task-Registered :
        (now : ℕ) (local : Option SockAddr) (c : PrcClient) (p : ProxyInfo) (m : Manager T R)
        → Registered c p (on_new_task ws key now local (some c) (some p) m)
    unfolding on_new_task
    on_new_task-Registered now local c p m =
        let asked = can_start m.capability (some (profile_of key p)) now in
        elim (Bool-cases (is_started asked.1)) [
          | inr b ↦ rw b (λ r. absurd (ground (arith, r)))
          | inl b ↦
              let swept = sweep (is_stale c p) m.tasks m.port_states in
              let m' = record m { capability = asked.0; tasks = swept.0; port_states = swept.1 } in
              rw b (place-Registered now local c p m')
        ]
