-- ===== src/Udp/Task.antt =====
-- The upstream side of one UDP task, a state machine: src/ProxyLaneHook/UdpProxyTask.cpp. `T` is a
-- datagram's target and `R` a reply's route and endpoint. What the sockets answer and the clock,
-- read once for a handler, are the handler's argument `Env`; `sent` lists what the server's SendTo
-- has taken. Partner pointers, capture and the QUIC bridge are not modelled.
pub mod Events
pub mod Handlers
pub mod Invariant
pub mod Life
pub mod Runs
pub mod Sending
mod Tests
use proxy_lane.Common.{
  ℕ, zero, suc, ◌*◌, Bool, true, false, List, [], ◌∷◌, map, if◌then◌else◌, add32,
}
use proxy_lane.Udp.Capability.{
  TaskMgr, Profile, proxytype_noproxy, not_before, report_association_failure,
  report_association_ready, is_permanently_unsupported,
}
use proxy_lane.Udp.Pending.{Packet, Queue, empty, enqueue, expire, expired, flush}
use proxy_lane.Udp.Destination.{should_enter_dormant}
use proxy_lane.Udp.Routes.{Route}

pub data UpstreamState : Type 0 where
  route_reserved associating ready reconnect_wait dormant closing : UpstreamState

-- m_pServer: null, or a peer whose socket is closed or open.
pub data Server : Type 0 where
  no_server closed_server open_server : Server

-- SendTo's result and, for SOCKET_ERROR, WSAGetLastError.
pub data Sent : Type 0 where
  taken : Sent
  would_block : Sent
  failed : ℕ → Sent

-- ConnectProxy's result: refused with an error, or a peer and whether it has a socket.
pub data Connected : Type 0 where
  refused : ℕ → Connected
  connected : Bool → Connected

pub record Env (T R : Type 0) : Type 0 where
  pub now : ℕ
  pub connect_proxy : Connected
  -- The answer to the n-th SendTo of the handler.
  pub send_to : ℕ → Packet T → Sent
  pub route_open : Packet R → Bool
  pub route_takes : Packet R → Bool

pub record Task (T R : Type 0) : Type 0 where
  pub proxy : Profile
  pub taskmgr : TaskMgr
  pub routes : List Route
  pub pending : Queue T
  pub pending_replies : Queue R
  pub server : Server
  pub upstream_state : UpstreamState
  pub last_activity : ℕ
  pub next_server_reconnect : ℕ
  pub server_reconnect_delay : ℕ
  pub last_server_error : ℕ
  pub sent : List (Packet T)

abbrev pub idle_timeout : ℕ
idle_timeout = 5 * 60 * 1000

abbrev pub first_delay : ℕ
first_delay = 250

abbrev pub max_delay : ℕ
max_delay = 5000

abbrev pub blocked_delay : ℕ
blocked_delay = 60 * 1000

abbrev pub wsaeopnotsupp : ℕ
wsaeopnotsupp = 10045

abbrev pub wsaeconnrefused : ℕ
wsaeconnrefused = 10061

abbrev pub is_closing : UpstreamState → Bool
is_closing closing = true
is_closing _ = false

abbrev pub is_waiting : UpstreamState → Bool
is_waiting reconnect_wait = true
is_waiting _ = false

abbrev pub is_ready : UpstreamState → Bool
is_ready ready = true
is_ready _ = false

abbrev pub is_associating : UpstreamState → Bool
is_associating associating = true
is_associating _ = false

-- ShouldActivateUpstream.
abbrev pub should_activate_upstream : UpstreamState → Bool
should_activate_upstream route_reserved = true
should_activate_upstream dormant = true
should_activate_upstream _ = false

abbrev pub has_socket : Server → Bool
has_socket open_server = true
has_socket _ = false

-- Close: the peer stays, its socket goes.
abbrev pub close_peer : Server → Server
close_peer no_server = no_server
close_peer _ = closed_server

abbrev pub or_refused : ℕ → ℕ
or_refused zero = wsaeconnrefused
or_refused (suc n) = suc n

abbrev pub close_route : Route → Route
close_route r = record r { is_open = false }

abbrev pub nothing_pending : {T : Type 0} → Queue T → Bool
nothing_pending q = elim q.packets [ [] ↦ true | x ∷ xs ↦ false ]

module _ {T R : Type 0} where
  -- The constructor.
  unfoldable pub new_task : Profile → TaskMgr → ℕ → Task T R
  new_task p m now = record {
    proxy = p;
    taskmgr = m;
    routes = [];
    pending = empty;
    pending_replies = empty;
    server = no_server;
    upstream_state = route_reserved;
    last_activity = now;
    next_server_reconnect = 0;
    server_reconnect_delay = first_delay;
    last_server_error = 0;
    sent = [];
  }

  unfoldable pub close_task : Task T R → Task T R
  close_task t = record t {
    upstream_state = closing;
    pending_replies = empty;
    routes = map close_route t.routes;
    server = close_peer t.server;
  }

  unfoldable pub end_task : Task T R → Task T R
  end_task t = record t {
    upstream_state = closing;
    routes = [];
    pending = empty;
    pending_replies = empty;
    server = no_server;
  }

  unfoldable pub schedule_server_reconnect : ℕ → ℕ → Task T R → Task T R
  schedule_server_reconnect now error t =
      if is_closing t.upstream_state
      then t
      else if is_waiting t.upstream_state
      then record t { server = close_peer t.server }
      else record t {
        upstream_state = reconnect_wait;
        next_server_reconnect = add32 now t.server_reconnect_delay;
        last_server_error = error;
        server = close_peer t.server;
      }
