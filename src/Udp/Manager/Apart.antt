-- ===== src/Udp/Manager/Apart.antt =====
-- Which routes share a task, under CProxyUDPTaskMgr of src/ProxyLaneHook/ProxyTaskMgr.cpp.
use proxy_lane.Common.{
  ℕ, ◌≡◌, refl, sym, ◌⊎◌, inl, inr, Bool, true, Option, none, some, List, [], ◌∷◌, arith, All,
  Bool-cases, Option-cases, All-append,
}
use proxy_lane.SockAddr.{SockAddr, In6}
use proxy_lane.Prc.{PrcClient, ProxyInfo}
use proxy_lane.Udp.Capability.{can_start}
use proxy_lane.Udp.Task.{new_task}
use proxy_lane.Udp.Routes.{has_route, can_accept_route}
use proxy_lane.Udp.Routes.Reply.{PairwiseApart}
use proxy_lane.Udp.Manager.Sharing.{Steady, add_route-PairwiseApart}
use proxy_lane.Udp.Manager.Placing.{
  fresh_task, owns, accepts, is_stale, add_to, offer, routed, start_task, listed, placed_or, place,
  on_new_task, register_route_port,
}
use proxy_lane.Udp.Manager.{Managed, Manager, Ports, sweep, profile_of, is_started}

module _ {T R : Type 0} (ws : In6) where
  abbrev pub RoutesApart : Managed T R → Type 0
  RoutesApart t = PairwiseApart ws t.task.routes

  abbrev pub IsSteady : PrcClient → Managed T R → Type 0
  IsSteady c t = Steady ws c t.task.routes

  sweep-All {κ} :
      (P : Managed T R → Type κ) (gone : Managed T R → Bool) (ts : List (Managed T R))
      (ports : Ports)
      → All P ts
      → All P (sweep gone ts ports).0
  unfolding sweep
  sweep-All P gone [] ports h = tt
  sweep-All P gone (t ∷ ts) ports h = elim (Bool-cases (gone t)) [
    | inl g ↦ rw g (sweep-All P gone ts _ h.1)
    | inr g ↦ rw g (h.0, sweep-All P gone ts _ h.1)
  ]

  add_to-Apart :
      (local : Option SockAddr) (c : PrcClient) (t : Managed T R)
      → IsSteady c t
      → RoutesApart t
      → (has_route ws t.task.routes c ≡ true) ⊎ (can_accept_route ws t.task.routes c ≡ true)
      → RoutesApart (add_to ws local c t).0
  unfolding add_to
  add_to-Apart local c t s h k = add_route-PairwiseApart ws t.task.routes c local s h k

  -- The tasks that the loop leaves, and, where it finds none, that none fits.
  offer-Apart :
      (local : Option SockAddr) (c : PrcClient) (fits : Managed T R → Bool)
      (ts : List (Managed T R)) (placed : List (Managed T R) × Option PrcClient)
      → ((t : Managed T R)
          → fits t ≡ true
          → (has_route ws t.task.routes c ≡ true) ⊎ (can_accept_route ws t.task.routes c ≡ true))
      → All (IsSteady c) ts
      → All RoutesApart ts
      → offer ws local c fits ts ≡ some placed
      → All RoutesApart placed.0
  unfolding offer
  offer-Apart local c fits [] placed can s h e = absurd (ground (arith, e))
  offer-Apart local c fits (t ∷ ts) placed can s h e = elim (Bool-cases (fits t)) [
    | inl f ↦
        let added = add_to-Apart local c t s.0 h.0 (can t f) in
        let p : (add_to ws local c t).0 ∷ ts ≡ placed.0 = ground (arith, f, e) in
        rw (sym p) (added, h.1)
    | inr f ↦ elim (Option-cases (offer ws local c fits ts)) [
      | inl n ↦ absurd (ground (arith, f, n, e))
      | inr (rest, q) ↦
          let p : t ∷ rest.0 ≡ placed.0 = ground (arith, f, q, e) in
          rw (sym p) (h.0, offer-Apart local c fits ts rest can s.1 h.1 q)
    ]
  ]

  routed-Apart :
      (m : Manager T R) (placed : List (Managed T R) × Option PrcClient)
      → All RoutesApart placed.0
      → All RoutesApart (routed ws m placed).0.tasks
  unfolding routed register_route_port
  routed-Apart m (tasks, none) h = h
  routed-Apart m (tasks, some c) h = h

  listed-Apart :
      (m : Manager T R) (t : Managed T R) (c : Option PrcClient)
      → All RoutesApart m.tasks
      → RoutesApart t
      → All RoutesApart (listed ws m t c).0.tasks
  unfolding listed register_route_port
  listed-Apart m t none h k = h
  listed-Apart m t (some c) h k = All-append RoutesApart m.tasks (t ∷ []) h (k, tt)

  start_task-Apart :
      (key : ProxyInfo → List ℕ) (now : ℕ) (local : Option SockAddr) (c : PrcClient) (p : ProxyInfo)
      (m : Manager T R)
      → All RoutesApart m.tasks
      → All RoutesApart (start_task ws key now local c p m).0.tasks
  unfolding start_task
  start_task-Apart key now local c p m h =
      let t = fresh_task ws key now c p m in
      listed-Apart m (add_to ws local c t).0 (add_to ws local c t).1 h (
        add_to-Apart local c t (unfold new_task in tt) (unfold new_task in tt)
          (unfold new_task can_accept_route in inr refl))

  placed_or-Apart :
      (m : Manager T R) (found : Option (List (Managed T R) × Option PrcClient))
      (otherwise : Manager T R × Bool)
      → ((placed : List (Managed T R) × Option PrcClient)
          → found ≡ some placed
          → All RoutesApart placed.0)
      → All RoutesApart otherwise.0.tasks
      → All RoutesApart (placed_or ws m found otherwise).0.tasks
  unfolding placed_or
  placed_or-Apart m none otherwise h k = k
  placed_or-Apart m (some placed) otherwise h k = routed-Apart m placed (h placed refl)

  place-Apart :
      (key : ProxyInfo → List ℕ) (now : ℕ) (local : Option SockAddr) (c : PrcClient) (p : ProxyInfo)
      (m : Manager T R)
      → All (IsSteady c) m.tasks
      → All RoutesApart m.tasks
      → All RoutesApart (place ws key now local c p m).0.tasks
  unfolding place
  place-Apart key now local c p m s h =
      placed_or-Apart m (offer ws local c (owns ws c p) m.tasks) _
        (λ placed e.
          offer-Apart local c (owns ws c p) m.tasks placed (λ t f. inl (ground (arith, f))) s h e)
        (placed_or-Apart m (offer ws local c (accepts ws c p) m.tasks) _
          (λ placed e.
            offer-Apart local c (accepts ws c p) m.tasks placed (λ t f. inr (ground (arith, f))) s h
              e)
          (start_task-Apart key now local c p m h))

  -- Whatever sockets register, on whichever tasks: as long as a destination that is asked for again
  -- is redirected as before, the routes of every task stay pairwise apart, which is what the choice
  -- of a route for a reply needs.
  pub on_new_task-RoutesApart :
      (key : ProxyInfo → List ℕ) (now : ℕ) (local : Option SockAddr) (c : PrcClient) (p : ProxyInfo)
      (m : Manager T R)
      → All (IsSteady c) m.tasks
      → All RoutesApart m.tasks
      → All RoutesApart (on_new_task ws key now local (some c) (some p) m).0.tasks
  unfolding on_new_task
  on_new_task-RoutesApart key now local c p m s h =
      let m' = record m { capability = (can_start m.capability (some (profile_of key p)) now).0 } in
      let swept = sweep (is_stale c p) m.tasks m.port_states in
      elim (Bool-cases (is_started (can_start m.capability (some (profile_of key p)) now).1)) [
        | inr b ↦ rw b h
        | inl b ↦ rw b (
            place-Apart key now local c p (record m' { tasks = swept.0; port_states = swept.1 })
              (sweep-All (IsSteady c) (is_stale c p) m.tasks m.port_states s)
              (sweep-All RoutesApart (is_stale c p) m.tasks m.port_states h))
      ]
