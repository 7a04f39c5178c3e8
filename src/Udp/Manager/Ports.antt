-- ===== src/Udp/Manager/Ports.antt =====
-- The port states of CProxyUDPTaskMgr in src/ProxyLaneHook/ProxyTaskMgr.cpp.
use proxy_lane.Common.{
  ◌∙◌, true, ℕ, ◌≡◌, refl, Bool, false, ◌&&◌, ◌||◌, List, [], ◌∷◌, arith, ◌==◌, if◌then◌else◌,
}
use proxy_lane.Udp.Routes.{Route}
use proxy_lane.Udp.Manager.{
  same_socket, PrcClient, Managed, sweep, PortState, Ports, no_port_state, set_port_state,
  clear_task_port_states,
}
use proxy_lane.Udp.Manager.Ending.{kill_loop}

-- Some route has the port.
abbrev pub listens : ℕ → List Route → Bool
listens port [] = false
listens port (r ∷ rs) = r.client.udp_addr.port == port || listens port rs

-- The states, less that of the port if it goes and is its own.
abbrev pub less : Bool → Ports → ℕ → PortState
less goes ports port = if goes && (ports port).proxy_port == port then no_port_state else ports port

-- ClearTaskPortStates clears the states of the task's own ports and no other.
pub clear_task_port_states_lem :
    (routes : List Route) (ports : Ports) (port : ℕ)
    → clear_task_port_states routes ports port ≡ less (listens port routes) ports port
unfolding clear_task_port_states
clear_task_port_states_lem [] ports port = refl
clear_task_port_states_lem (r ∷ rs) ports port =
    let at = r.client.udp_addr.port in
    let cleared =
      if (ports at).proxy_port == at then set_port_state ports at no_port_state else ports in
    ground (arith, clear_task_port_states_lem rs cleared port)

less-less :
    (a b : Bool) (ports ports2 : Ports) (port : ℕ)
    → ports2 port ≡ less a ports port
    → less b ports2 port ≡ less (a || b) ports port
less-less a b ports ports2 port h = ground (arith, h)

clear_one :
    (goes : Bool) (routes : List Route) (ports : Ports) (port : ℕ)
    → (if goes then clear_task_port_states routes ports else ports) port
      ≡ less (goes && listens port routes) ports port
clear_one true routes ports port = clear_task_port_states_lem routes ports port
clear_one false routes ports port = refl

module _ {T R : Type 0} where
  -- Some task that goes has a route with the port.
  abbrev pub released : (Managed T R → Bool) → ℕ → List (Managed T R) → Bool
  released gone port [] = false
  released gone port (t ∷ ts) = (gone t && listens port t.task.routes) || released gone port ts

  pub sweep-ports :
      (gone : Managed T R → Bool) (ts : List (Managed T R)) (ports : Ports) (port : ℕ)
      → (sweep gone ts ports).1 port ≡ less (released gone port ts) ports port
  unfolding sweep
  sweep-ports gone [] ports port = refl
  sweep-ports gone (t ∷ ts) ports port =
      let cleared = if gone t then clear_task_port_states t.task.routes ports else ports in
      sweep-ports gone ts cleared port
      ∙ less-less (gone t && listens port t.task.routes) (released gone port ts) ports cleared port
          (clear_one (gone t) t.task.routes ports port)

  pub kill_loop-ports :
      (c : PrcClient) (ts : List (Managed T R)) (ports : Ports) (port : ℕ)
      → (kill_loop c ts ports).1 port
        ≡ less (released (λ t. same_socket t.client c) port ts) ports port
  unfolding kill_loop
  kill_loop-ports c [] ports port = refl
  kill_loop-ports c (t ∷ ts) ports port =
      let hit = same_socket t.client c in
      let cleared = if hit then clear_task_port_states t.task.routes ports else ports in
      kill_loop-ports c ts cleared port
      ∙ less-less (hit && listens port t.task.routes)
          (released (λ t. same_socket t.client c) port ts) ports cleared port
          (clear_one hit t.task.routes ports port)
