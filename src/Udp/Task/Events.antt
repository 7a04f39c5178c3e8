-- ===== src/Udp/Task/Events.antt =====
-- The events that reach a UDP task, from its sockets, the manager's timer and the other tasks:
-- src/ProxyLaneHook/UdpProxyTask.cpp. A run of the task is a list of events.
use proxy_lane.Common.{ℕ, ◌^◌, ◌<◌, Bool, List, [], ◌∷◌, length}
use proxy_lane.Udp.Capability.{TaskMgr}
use proxy_lane.Udp.Pending.{Packet}
use proxy_lane.Udp.Task.{Env, Task}
use proxy_lane.Udp.Task.Handlers.{
  on_peer_closed, flush_pending_replies, on_server_writable, on_server_ready, on_maintenance_timer,
  forward_client_datagram, forward_server_datagram,
}

pub data Event (T R : Type 0) : Type 0 where
  server_ready : Env T R → Event T R
  server_writable : Env T R → Event T R
  -- The tick, whether the peer is the server, and the error.
  peer_closed : ℕ → Bool → ℕ → Event T R
  timer : Env T R → Event T R
  client_datagram : Env T R → T → List ℕ → Event T R
  server_datagram : ℕ → Bool → R → List ℕ → Event T R
  route_writable : Env T R → (Packet R → Bool) → Event T R
  -- Another task or the settings changed the manager's view of the proxy.
  manager_changed : TaskMgr → Event T R

module _ {T R : Type 0} where
  unfoldable pub step : Task T R → Event T R → Task T R
  step t (server_ready env) = on_server_ready env t
  step t (server_writable env) = on_server_writable env t
  step t (peer_closed now from_server error) = on_peer_closed now from_server error t
  step t (timer env) = on_maintenance_timer env t
  step t (client_datagram env target bytes) = (forward_client_datagram env target bytes t).0
  step t (server_datagram now sends route bytes) =
      (forward_server_datagram now sends route bytes t).0
  step t (route_writable env wanted) = flush_pending_replies env wanted t
  step t (manager_changed m) = record t { taskmgr = m }

  unfoldable pub run : Task T R → List (Event T R) → Task T R
  run t [] = t
  run t (e ∷ es) = run (step t e) es

  -- Payload lengths are an `int`.
  abbrev pub IsEvent : Event T R → Type 0
  IsEvent (client_datagram env target bytes) = length bytes < 2 ^ 31
  IsEvent (server_datagram now sends route bytes) = length bytes < 2 ^ 31
  IsEvent e = Unit {0}
