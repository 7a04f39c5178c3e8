-- ===== src/Udp/Manager.antt =====
-- The manager of the UDP tasks: CProxyUDPTaskMgr of src/ProxyLaneHook/ProxyTaskMgr.cpp, with the
-- tests on a task that it makes (src/ProxyLaneHook/UdpProxyTask.cpp). Each operation holds the lock
-- of the task list. OnAddTask, OnDelTask and the logged texts are not modelled; the key of a proxy
-- profile is a parameter, as its text is formatted by the library.
pub mod Placing
pub mod Ending
pub mod Sharing
pub mod Apart
pub mod Ports
pub mod Closing
pub mod Reach
pub mod Registered
pub mod Replies
mod Tests
use proxy_lane.Common.{
  ℕ, Bool, true, false, not, ◌&&◌, ◌||◌, Option, some, List, [], ◌∷◌, ◌==◌, if◌then◌else◌, bytes_eq,
  same_text,
}
use proxy_lane.SockAddr.{SockAddr, In6, get_dword_ip, zero4}
use proxy_lane.Prc.{
  PrcClient, ProxyInfo, ProxyType, noproxy, socks4, socks4a, socks5, http10, http11, get_proxy_type,
}
use proxy_lane.Udp.Capability.{TaskMgr, Profile, can_start, Start, started, reset}
use proxy_lane.Udp.Routes.{Route, same_route, has_route, can_accept_route, add_route}
use proxy_lane.Udp.Task.{Env, Task, new_task, close_task, has_socket}
use proxy_lane.Udp.Task.Handlers.{on_maintenance_timer}

-- UDPLocalProxyAddrInfo.
pub record PortState : Type 0 where
  pub client_ip : List ℕ
  pub client_port : ℕ
  pub proxy_port : ℕ

abbrev pub no_port_state : PortState
no_port_state = record { client_ip = zero4; client_port = 0; proxy_port = 0 }

-- m_PortState, an array of 65536.
abbrev pub Ports : Type 0
Ports = ℕ → PortState

abbrev pub set_port_state : Ports → ℕ → PortState → Ports
set_port_state ports at state = λ port. if port == at then state else ports port

-- A task with the client and the profile that it was made for.
pub record Managed (T R : Type 0) : Type 0 where
  pub client : PrcClient
  pub proxy_info : ProxyInfo
  pub task : Task T R

pub record Manager (T R : Type 0) : Type 0 where
  pub capability : TaskMgr
  pub tasks : List (Managed T R)
  pub port_states : Ports
  pub timers : Bool

abbrev pub proxy_type_code : ProxyType → ℕ
proxy_type_code noproxy = 0
proxy_type_code socks4 = 1
proxy_type_code socks4a = 2
proxy_type_code socks5 = 3
proxy_type_code http10 = 4
proxy_type_code http11 = 5

abbrev pub is_open : List Route → Bool
is_open [] = false
is_open (r ∷ rs) = r.is_open || is_open rs

abbrev pub same_socket : PrcClient → PrcClient → Bool
same_socket a b =
    a.pid == b.pid
    && a.process_create_time == b.process_create_time
    && a.socket_generation == b.socket_generation
    && a.socket == b.socket

-- GetProxyType, the port, the transport (`reserved`), the key and the host.
abbrev pub same_proxy : ProxyInfo → ProxyInfo → Bool
same_proxy a b =
    proxy_type_code (get_proxy_type a.proxy_type) == proxy_type_code (get_proxy_type b.proxy_type)
    && a.proxy_port == b.proxy_port
    && a.transport == b.transport
    && bytes_eq a.transport_psk b.transport_psk
    && same_text a.proxy_host b.proxy_host

abbrev pub profile_of : (ProxyInfo → List ℕ) → ProxyInfo → Profile
profile_of key p = record {
  proxy_type = proxy_type_code (get_proxy_type p.proxy_type);
  key = key p;
}

abbrev pub is_started : Start → Bool
is_started started = true
is_started _ = false

-- The address of the route that AddRoute has reused, or of the new socket.
unfoldable pub route_address : In6 → List Route → PrcClient → Option SockAddr → Option SockAddr
route_address ws [] c local = local
route_address ws (r ∷ rs) c local =
    let rest = route_address ws rs c local in
    if same_route ws c r then if r.is_open then some r.client.udp_addr else local else rest

-- ClearTaskPortStates.
unfoldable pub clear_task_port_states : List Route → Ports → Ports
clear_task_port_states [] ports = ports
clear_task_port_states (r ∷ rs) ports =
    let at = r.client.udp_addr.port in
    clear_task_port_states rs
      (if (ports at).proxy_port == at then set_port_state ports at no_port_state else ports)

module _ {T R : Type 0} where
  -- IsClosed.
  unfoldable pub is_closed : Task T R → Bool
  is_closed t = not (is_open t.routes) && not (has_socket t.server)

  unfoldable pub matches_association : PrcClient → ProxyInfo → Managed T R → Bool
  matches_association c p t = same_socket t.client c && same_proxy t.proxy_info p

  -- The erasure of every task that `gone` holds of: what stays, and RemoveTask's port states.
  unfoldable pub sweep :
      (Managed T R → Bool) → List (Managed T R) → Ports → List (Managed T R) × Ports
  unfolding clear_task_port_states
  sweep gone [] ports = ([], ports)
  sweep gone (t ∷ ts) ports =
      let rest =
        sweep gone ts (if gone t then clear_task_port_states t.task.routes ports else ports) in
      (if gone t then rest.0 else t ∷ rest.0, rest.1)

  abbrev pub any : List (Managed T R) → Bool
  any [] = false
  any (t ∷ ts) = true
