-- ===== src/Tcp/Peer.antt =====
-- The two peers of a TCP task, src/ProxyLaneHook/PRCTcpPeer.cpp and .h, with TimeoutMonitor.h. What
-- the sockets answer is the argument of a handler, and `incoming` and `outgoing` list the bytes that
-- a socket has handed out and taken. The MITM bridge is off; the taps that only watch are left out.
pub mod Failures
pub mod Flow
pub mod Handlers
pub mod Receiving
pub mod Runs
pub mod Steps
mod Tests
use proxy_lane.Common.{
  ℕ, ◌+◌, ◌-◌, ◌*◌, ◌%◌, ◌^◌, Bool, true, false, not, ◌&&◌, ◌||◌, Option, none, some, List, [], ◌∷◌,
  ◌++◌, ltb, leb, ◌==◌, if◌then◌else◌, length, take, drop, sub32,
}

-- em_TMTimeOut.
pub data Status : Type 0 where
  tm_0 tm_dns tm_conn tm_recv tm_send tm_idle tm_shut tm_close : Status

pub data Event : Type 0 where
  fd_read fd_write fd_close : Event

pub record Monitor : Type 0 where
  pub time : ℕ
  pub timeout : ℕ
  pub is_valid : Bool

-- The constructor of CTimeoutMonitor with SetTimeoutVal.
abbrev pub new_monitor : ℕ → ℕ → Monitor
new_monitor now timeout = record { time = now; timeout = timeout; is_valid = true }

abbrev pub disable : Monitor → Monitor
disable m = record m { is_valid = false }

abbrev pub enable : Monitor → Monitor
enable m = record m { is_valid = true }

abbrev pub refresh : ℕ → Monitor → Monitor
refresh now m = record m { time = now }

unfoldable pub is_timeout : ℕ → Monitor → Bool
is_timeout now m = if m.is_valid then ltb m.timeout (sub32 now m.time) else false

abbrev pub max_tcp_buf_size : ℕ
max_tcp_buf_size = 1024 * 4

abbrev pub max_event_read_bytes : ℕ
max_event_read_bytes = max_tcp_buf_size * 16

abbrev pub wsaetimedout : ℕ
wsaetimedout = 10060

-- One side. `buffer` is m_recvbuf up to m_recvbufpos; `posted` lists the events that TriggerEvent
-- has posted with their errors, and `selected` those of the last AsyncSelect.
pub record Peer : Type 0 where
  pub status : Status
  pub conn_shutted : Bool
  pub read_closed : Bool
  pub write_shutdown : Bool
  pub forwarding_ready : Bool
  pub fully_closing : Bool
  pub has_proxy_layer : Bool
  pub is_open : Bool
  pub buffer : List ℕ
  pub sent_pos : ℕ
  pub data_len_received : ℕ
  pub data_len_sent : ℕ
  pub last_error : ℕ
  pub conn_monitor : Monitor
  pub send_monitor : Monitor
  pub recv_monitor : Monitor
  pub shut_monitor : Monitor
  pub selected : List Event
  pub posted : List (Event × ℕ)
  pub incoming : List ℕ
  pub outgoing : List ℕ

-- The peer whose handler runs, its partner, and m_bDeletePending of their task.
pub record Link : Type 0 where
  pub self : Peer
  pub partner : Peer
  pub delete_pending : Bool

abbrev pub flip : Link → Link
flip l = record l { self = l.partner; partner = l.self }

unfoldable pub new_peer : ℕ → Bool → Peer
new_peer now has_layer = record {
  status = tm_0;
  conn_shutted = false;
  read_closed = false;
  write_shutdown = false;
  forwarding_ready = false;
  fully_closing = false;
  has_proxy_layer = has_layer;
  is_open = true;
  buffer = [];
  sent_pos = 0;
  data_len_received = 0;
  data_len_sent = 0;
  last_error = 0;
  conn_monitor = new_monitor now (15 * 1000);
  send_monitor = new_monitor now (30 * 1000);
  recv_monitor = new_monitor now (30 * 1000);
  shut_monitor = new_monitor now (20 * 1000);
  selected = [];
  posted = [];
  incoming = [];
  outgoing = [];
}

abbrev pub is_empty : List ℕ → Bool
is_empty [] = true
is_empty (x ∷ xs) = false

-- What the partner has yet to take.
abbrev pub unsent : Peer → List ℕ
unsent p = drop p.sent_pos p.buffer

abbrev pub valid_data_len : Peer → ℕ
valid_data_len p = length p.buffer - p.sent_pos

abbrev pub clear_buffer : Peer → Peer
clear_buffer p = record p { buffer = []; sent_pos = 0 }

abbrev pub trigger_event : Event → ℕ → Peer → Peer
trigger_event event error p = record p { posted = p.posted ++ (event, error) ∷ [] }

-- AsyncSelect(0) and Close.
abbrev pub close_socket : Peer → Peer
close_socket p = record p { selected = []; is_open = false }

-- CTcpProxyTask::OnPeerClosed.
abbrev pub on_peer_closed : Link → Link
on_peer_closed l =
    if not l.self.is_open && not l.partner.is_open then record l { delete_pending = true } else l

-- The result of Send: the bytes taken, WSAEWOULDBLOCK, or another error.
pub data Sent : Type 0 where
  taken : ℕ → Sent
  would_block : Sent
  failed : ℕ → Sent

-- The loop of TransferSend: what was taken, and whether no error came up. Where the answers end, the
-- socket would block.
unfoldable pub send_loop : List Sent → List ℕ → List ℕ × Bool
send_loop [] left = ([], true)
send_loop (would_block ∷ answers) left = ([], true)
send_loop (failed error ∷ answers) left = ([], is_empty left)
send_loop (taken n ∷ answers) left =
    let rest = send_loop answers (drop n left) in
    if is_empty left then ([], true) else (take n left ++ rest.0, rest.1)

unfoldable pub add64 : ℕ → ℕ → ℕ
add64 a b = (a + b) % 2 ^ 64

-- The number of bytes sent, or nothing for -1.
unfoldable pub transfer_send : ℕ → List Sent → Link → Link × Option ℕ
unfolding send_loop
transfer_send now answers l =
    let result = send_loop answers (unsent l.self) in
    let all_sent = leb (length (unsent l.self)) (length result.0) in
    let self' = record l.self {
      buffer = if all_sent then [] else l.self.buffer;
      sent_pos = if all_sent then 0 else l.self.sent_pos + length result.0;
      data_len_sent = add64 l.self.data_len_sent (length result.0);
    } in
    let partner' = record l.partner {
      status = tm_send;
      send_monitor = refresh now l.partner.send_monitor;
      outgoing = l.partner.outgoing ++ result.0;
    } in
    (
      record l { self = self'; partner = partner' },
      if result.1 then some (length result.0) else none,
    )

-- `pending` says that FIONREAD counts bytes that are not read.
unfoldable pub propagate_half_close : Bool → Link → Link
propagate_half_close pending l =
    if not l.self.read_closed
      || not (valid_data_len l.self == 0)
      || not l.partner.is_open
      || l.partner.write_shutdown
      || l.partner.has_proxy_layer && not l.partner.forwarding_ready
    then l
    else if pending
    then record l { self = trigger_event fd_read 0 l.self }
    else record l { partner = record l.partner { write_shutdown = true } }

unfoldable pub try_finish_connection : Link → Link
try_finish_connection l =
    if l.self.fully_closing
      || not l.self.read_closed
      || not l.partner.read_closed
      || not (valid_data_len l.self == 0)
      || not (valid_data_len l.partner == 0)
    then l
    else on_peer_closed (record l {
      self = record (close_socket l.self) { fully_closing = true; status = tm_close };
      partner = record (close_socket l.partner) { fully_closing = true; status = tm_close };
    })
