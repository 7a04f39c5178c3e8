-- ===== src/Tcp/Peer/Handlers.antt =====
-- The handlers of a TCP peer, src/ProxyLaneHook/PRCTcpPeer.cpp, each as a function on the task's link.
use proxy_lane.Common.{
  ℕ, ◌+◌, ◌-◌, Bool, true, false, not, ◌&&◌, ◌||◌, Option, none, some, List, [], ◌∷◌, ◌++◌, ltb,
  leb, ◌==◌, if◌then◌else◌, length, take,
}
use proxy_lane.Tcp.Peer.{
  Status, tm_conn, tm_recv, tm_send, tm_shut, tm_close, fd_read, fd_write, fd_close, disable,
  enable, refresh, is_timeout, max_tcp_buf_size, max_event_read_bytes, wsaetimedout, Peer, Link,
  flip, is_empty, valid_data_len, clear_buffer, trigger_event, close_socket, on_peer_closed, Sent,
  add64, transfer_send, propagate_half_close, try_finish_connection,
}

-- The result of Receive.
pub data Received : Type 0 where
  got : List ℕ → Received
  no_data : Received
  end_of_stream : Received
  receive_failed : ℕ → Received

-- The result of TestSocketStatus.
pub data Readiness : Type 0 where
  select_failed not_ready is_ready : Readiness

-- What the sockets answer in one round of OnReceive's loop.
pub record Round : Type 0 where
  pub receive : Received
  pub send : List Sent
  pub readable : Readiness

-- The loop's state after a round: it ends, with the error if there is one, or goes on. The number
-- is that of the bytes received.
pub data Outcome : Type 0 where
  ended : Link → ℕ → Option ℕ → Outcome
  again : Link → ℕ → Outcome

-- The first part of a round: the bytes are in the buffer.
abbrev pub store : List ℕ → Link → Link
store bytes l = record l {
  self = record l.self {
    buffer = l.self.buffer ++ bytes;
    data_len_received = add64 l.self.data_len_received (length bytes);
    incoming = l.self.incoming ++ bytes;
  };
}

abbrev pub close_reading : Link → Link
close_reading l = record l {
  self = record l.self {
    conn_shutted = true;
    read_closed = true;
    selected = fd_write ∷ fd_close ∷ [];
  };
}

unfoldable pub after_transfer : Readiness → ℕ → ℕ → Link → Option ℕ → Outcome
after_transfer readable n total l none = ended l n (some 0)
after_transfer readable n total l (some sent) =
    let next : Outcome = elim readable [
      | select_failed ↦ ended l n (some 0)
      | not_ready ↦ ended l n none
      | is_ready ↦ again l n
    ] in
    if ltb sent total then ended l n none else next

unfoldable pub receive_data : ℕ → Round → ℕ → List ℕ → Link → Outcome
unfolding after_transfer transfer_send
receive_data now r n bytes l =
    let stored = store bytes l in
    let moved = transfer_send now r.send stored in
    after_transfer r.readable (n + length bytes) (length stored.self.buffer) moved.0 moved.1

unfoldable pub receive_round : ℕ → Round → ℕ → Link → Outcome
unfolding receive_data
receive_round now r n l = elim r.receive [
  | got bytes ↦ receive_data now r n (take (max_tcp_buf_size - length l.self.buffer) bytes) l
  | no_data ↦ ended l n none
  | end_of_stream ↦ ended (close_reading l) n none
  | receive_failed error ↦ ended l n (some error)
]

-- What the loop makes of a round, where `next` is the loop on the answers that are left.
unfoldable pub follow : (ℕ → Link → Link × ℕ × Option ℕ) → Outcome → Link × ℕ × Option ℕ
follow next (ended l n error) = (l, n, error)
follow next (again l n) = next n l

-- The loop of OnReceive on the answers; where they end, the socket would block.
unfoldable pub receive_loop : ℕ → List Round → ℕ → Link → Link × ℕ × Option ℕ
unfolding receive_round follow
receive_loop now [] n l = (l, n, none)
receive_loop now (r ∷ rounds) n l =
    let rest = follow (receive_loop now rounds) (receive_round now r n l) in
    if ltb (length l.self.buffer) max_tcp_buf_size
      && (ltb n max_event_read_bytes || l.self.read_closed)
    then rest
    else (l, n, none)

abbrev pub start_receiving : ℕ → Link → Link
start_receiving now l = record l {
  self = record l.self { status = tm_recv; recv_monitor = refresh now l.self.recv_monitor };
}

-- OnReceive behind its loop.
unfoldable pub end_receive : Bool → Bool → Link → ℕ → Option ℕ → Link
unfolding propagate_half_close try_finish_connection
end_receive readable pending l n (some error) = record l {
  self = trigger_event fd_close error (clear_buffer l.self);
}
end_receive readable pending l n none =
    let drained =
      if not l.self.read_closed && leb max_event_read_bytes n && readable
      then record l { self = trigger_event fd_read 0 l.self }
      else l in
    try_finish_connection (propagate_half_close pending drained)

-- `readable` and `pending` are the answers to the last TestSocketStatus and to FIONREAD.
unfoldable pub on_receive : ℕ → ℕ → List Round → Bool → Bool → Link → Link
unfolding receive_loop end_receive
on_receive now error rounds readable pending l =
    let started = start_receiving now l in
    let (l', n, e) = receive_loop now rounds 0 started in
    if not (error == 0)
    then l
    else if not (is_empty l.self.buffer)
    then started
    else end_receive readable pending l' n e

-- OnSend where the partner's bytes are moved: `none` where it returns at once.
unfoldable pub after_send : Readiness → Bool → ℕ → Link → Option ℕ → Link × Bool
after_send readable secure_pending total l none = (
  record l {
    self = trigger_event fd_close 0 (clear_buffer l.self);
    partner = clear_buffer l.partner;
  },
  false,
)
after_send readable secure_pending total l (some sent) =
    let wake = record l { partner = trigger_event fd_read 0 l.partner } in
    let next : Link = elim readable [
      | select_failed ↦ record l {
        self = trigger_event fd_close 0 (clear_buffer l.self);
        partner = clear_buffer l.partner;
      }
      | not_ready ↦ if secure_pending then wake else l
      | is_ready ↦ wake
    ] in
    (if ltb sent total then l else next, true)

unfoldable pub finish_partner : Bool → Link → Link
unfolding propagate_half_close try_finish_connection
finish_partner pending l = flip (try_finish_connection (propagate_half_close pending (flip l)))

abbrev pub start_sending : ℕ → Link → Link
start_sending now l = record l {
  self = record l.self { status = tm_send; send_monitor = refresh now l.self.send_monitor };
}

-- `secure_pending` is HasPendingRead of the partner's secure layer, false where it has none.
unfoldable pub on_send : ℕ → ℕ → List Sent → Readiness → Bool → Bool → Link → Link
unfolding transfer_send after_send finish_partner
on_send now error answers readable secure_pending pending l =
    let started = start_sending now l in
    let total = valid_data_len l.partner in
    let moved = transfer_send now answers (flip started) in
    let sent = after_send readable secure_pending total (flip moved.0) moved.1 in
    if not (error == 0)
    then l
    else if total == 0
    then finish_partner pending started
    else if sent.1
    then finish_partner pending sent.0
    else sent.0

unfoldable pub on_close : ℕ → Bool → Link → Link
unfolding propagate_half_close try_finish_connection
on_close error pending l =
    let shut = record l { self = record l.self { conn_shutted = true } } in
    let drain = record shut {
      self =
          trigger_event fd_read 0
            (record shut.self { selected = fd_read ∷ fd_write ∷ fd_close ∷ [] });
    } in
    let closed = record shut {
      self = record (close_socket shut.self) { status = tm_close; last_error = error };
      partner = if l.partner.is_open then close_socket l.partner else l.partner;
    } in
    if error == 0
    then if ltb 0 (valid_data_len l.self)
      then shut
      else if l.self.read_closed
      then try_finish_connection (propagate_half_close pending shut)
      else drain
    else on_peer_closed closed

-- OnConnect before PropagateHalfClose.
abbrev pub on_connect_started : ℕ → Bool → Bool → Link → Link
on_connect_started now writable readable l =
    let self' = record l.self { forwarding_ready = true } in
    let partner0 = record l.partner { selected = fd_read ∷ fd_write ∷ fd_close ∷ [] } in
    let partner1 = if writable then trigger_event fd_write 0 partner0 else partner0 in
    let partner2 = if readable then trigger_event fd_read 0 partner1 else partner1 in
    record l {
      self = if ltb 0 (valid_data_len l.partner) then trigger_event fd_write 0 self' else self';
      partner = record partner2 {
        send_monitor = refresh now (enable l.partner.send_monitor);
        recv_monitor = refresh now (enable l.partner.recv_monitor);
      };
    }

-- `writable` and `readable` are the answers to TestSocketStatus of the partner.
unfoldable pub on_connect : ℕ → ℕ → Bool → Bool → Bool → Link → Link
unfolding on_close propagate_half_close
on_connect now error writable readable pending l =
    if not (error == 0)
    then on_close error pending l
    else flip (propagate_half_close pending (flip (on_connect_started now writable readable l)))

-- Behind the socket's own functions, ConnectProxy ends with these.
unfoldable pub connecting : ℕ → Link → Link
connecting now l = record l {
  self = record l.self { status = tm_conn; conn_monitor = refresh now l.self.conn_monitor };
  partner = record l.partner {
    send_monitor = disable l.partner.send_monitor;
    recv_monitor = disable l.partner.recv_monitor;
  };
}

abbrev pub time_out : Peer → Peer
time_out p = trigger_event fd_close wsaetimedout (clear_buffer p)

unfoldable pub on_timer_at : Status → ℕ → Link → Link
unfolding is_timeout
on_timer_at tm_conn now l =
    if is_timeout now l.self.conn_monitor then record l { self = time_out l.self } else l
on_timer_at tm_shut now l =
    if is_timeout now l.self.shut_monitor then record l { self = time_out l.self } else l
on_timer_at _ now l = l

unfoldable pub on_timer : ℕ → Link → Link
unfolding on_timer_at
on_timer now l = on_timer_at l.self.status now l
