-- ===== src/Udp/Manager/Placing.antt =====
-- How a socket gets a route: OnNewTask of CProxyUDPTaskMgr in src/ProxyLaneHook/ProxyTaskMgr.cpp, with
-- SetTaskInfo of src/ProxyLaneHook/UdpProxyTask.cpp.
use proxy_lane.Common.{
  ℕ, Bool, true, false, not, ◌&&◌, ◌||◌, Option, none, some, List, [], ◌∷◌, ◌++◌, if◌then◌else◌,
}
use proxy_lane.SockAddr.{SockAddr, In6, get_dword_ip}
use proxy_lane.Prc.{PrcClient, ProxyInfo}
use proxy_lane.Udp.Capability.{can_start}
use proxy_lane.Udp.Routes.{has_route, can_accept_route, add_route}
use proxy_lane.Udp.Task.{new_task}
use proxy_lane.Udp.Manager.{
  Managed, Manager, any, is_closed, is_started, matches_association, profile_of, route_address,
  set_port_state, sweep,
}

module _ {T R : Type 0} where
  -- AddRoute on a task; a client has the route's address after it succeeds.
  unfoldable pub add_to :
      In6 → Option SockAddr → PrcClient → Managed T R → Managed T R × Option PrcClient
  unfolding route_address
  add_to ws local c t =
      let added = add_route ws t.task.routes c local in
      (
        record t { task = record t.task { routes = added.0 } },
        if added.1
            then elim (route_address ws t.task.routes c local) [
              | none ↦ none
              | some a ↦ some (record c { udp_addr = a })
            ]
            else none,
      )

  -- The loop that adds the route to the first task that `fits`; none if there is no such task.
  unfoldable pub offer :
      In6
      → Option SockAddr
      → PrcClient
      → (Managed T R → Bool)
      → List (Managed T R)
      → Option (List (Managed T R) × Option PrcClient)
  unfolding add_to
  offer ws local c fits [] = none
  offer ws local c fits (t ∷ ts) =
      let rest = offer ws local c fits ts in
      let added = add_to ws local c t in
      if fits t
      then some (added.0 ∷ ts, added.1)
      else elim rest [ none ↦ none | some r ↦ some (t ∷ r.0, r.1) ]

  unfoldable pub register_route_port : In6 → PrcClient → Manager T R → Manager T R
  register_route_port ws c m = record m {
    port_states = set_port_state m.port_states c.udp_addr.port (record {
      client_ip = get_dword_ip ws c.src_addr;
      client_port = c.src_addr.port;
      proxy_port = c.udp_addr.port;
    });
  }

  -- What AddRoute's answer leads to.
  unfoldable pub routed :
      In6 → Manager T R → List (Managed T R) × Option PrcClient → Manager T R × Bool
  unfolding register_route_port
  routed ws m (tasks, none) = (record m { tasks = tasks }, false)
  routed ws m (tasks, some c) = (register_route_port ws c (record m { tasks = tasks }), true)

  abbrev pub owns : In6 → PrcClient → ProxyInfo → Managed T R → Bool
  owns ws c p t = matches_association c p t && has_route ws t.task.routes c

  abbrev pub accepts : In6 → PrcClient → ProxyInfo → Managed T R → Bool
  accepts ws c p t = matches_association c p t && can_accept_route ws t.task.routes c

  abbrev pub is_stale : PrcClient → ProxyInfo → Managed T R → Bool
  is_stale c p t = matches_association c p t && is_closed t.task

  -- Where no task was found, what is done otherwise.
  unfoldable pub placed_or :
      In6
      → Manager T R
      → Option (List (Managed T R) × Option PrcClient)
      → Manager T R × Bool
      → Manager T R × Bool
  unfolding routed
  placed_or ws m none otherwise = otherwise
  placed_or ws m (some placed) otherwise = routed ws m placed

  -- A new task with its route goes to the end of the list; without one it is dropped.
  unfoldable pub listed : In6 → Manager T R → Managed T R → Option PrcClient → Manager T R × Bool
  unfolding register_route_port
  listed ws m t none = (m, false)
  listed ws m t (some c) = (
    register_route_port ws c
        (record m { tasks = m.tasks ++ t ∷ []; timers = m.timers || not (any m.tasks) }),
    true,
  )

  module _ (ws : In6) (key : ProxyInfo → List ℕ) where
    -- A new task keeps the client as it was before its route had an address.
    abbrev pub fresh_task : ℕ → PrcClient → ProxyInfo → Manager T R → Managed T R
    fresh_task now c p m = record {
      client = c;
      proxy_info = p;
      task = new_task (profile_of key p) m.capability now;
    }

    -- SetTaskInfo on it.
    unfoldable pub start_task :
        ℕ → Option SockAddr → PrcClient → ProxyInfo → Manager T R → Manager T R × Bool
    unfolding listed add_to
    start_task now local c p m =
        let added = add_to ws local c (fresh_task now c p m) in listed ws m added.0 added.1

    -- The three ways to a route, once the closed tasks are gone.
    unfoldable pub place :
        ℕ → Option SockAddr → PrcClient → ProxyInfo → Manager T R → Manager T R × Bool
    unfolding offer placed_or start_task
    place now local c p m =
        placed_or ws m (offer ws local c (owns ws c p) m.tasks)
          (placed_or ws m (offer ws local c (accepts ws c p) m.tasks) (start_task now local c p m))

    -- `local` is the address of the route's new socket, none if it cannot be created.
    unfoldable pub on_new_task :
        ℕ → Option SockAddr → Option PrcClient → Option ProxyInfo → Manager T R → Manager T R × Bool
    unfolding sweep place
    on_new_task now local none p m = (m, false)
    on_new_task now local (some c) none m = (m, false)
    on_new_task now local (some c) (some p) m =
        let asked = can_start m.capability (some (profile_of key p)) now in
        let m' = record m { capability = asked.0 } in
        let swept = sweep (is_stale c p) m.tasks m.port_states in
        if is_started asked.1
        then place now local c p (record m' { tasks = swept.0; port_states = swept.1 })
        else (m', false)
