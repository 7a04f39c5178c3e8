-- ===== src/Tcp/Peer/Failures.antt =====
-- What the peers of src/ProxyLaneHook/PRCTcpPeer.cpp do about a failed Send, and about a connection
-- that is never made.
use mathlib.Core.Path.{sym, subst}
use proxy_lane.Common.{
  ℕ, ◌≡◌, refl, Bool, true, false, List, [], ◌∷◌, ◌++◌, arith, take, ◌-◌, append-nil, none, Option,
}
use proxy_lane.Tcp.Peer.{
  Link, flip, Sent, would_block, failed, fd_read, fd_close, is_timeout, max_tcp_buf_size, tm_conn,
  tm_send, wsaetimedout,
}
use proxy_lane.Tcp.Peer.Handlers.{
  got, Readiness, Round, on_timer, on_close, on_receive, end_receive, receive_loop, receive_data,
  follow, start_receiving,
}

-- One round of OnReceive that gets bytes, with the answers to Send and to TestSocketStatus.
abbrev pub round : ℕ → List ℕ → List Sent → Readiness → Round
round x bytes answers ready = record { receive = got (x ∷ bytes); send = answers; readable = ready }

-- A peer that reads and of which nothing waits.
abbrev idle : Link → Link
idle l = record l { self = record l.self { buffer = []; sent_pos = 0; read_closed = false } }

idle-eq :
    (l : Link) → l.self.buffer ≡ [] → l.self.sent_pos ≡ 0 → l.self.read_closed ≡ false → idle l ≡ l
idle-eq l b p c = λ i. record l {
  self = record l.self { buffer = sym b i; sent_pos = sym p i; read_closed = sym c i };
}

-- From `before` to `after` the socket has handed out `bytes`, the partner has taken none and none
-- waits, and the event that is posted carries no error.
pub record IsLost (bytes : List ℕ) (before after : Link) : Type 0 where
  pub read : after.self.incoming ≡ before.self.incoming ++ bytes
  pub not_sent : after.partner.outgoing ≡ before.partner.outgoing
  pub not_kept : after.self.buffer ≡ []
  pub no_error : after.self.posted ≡ before.self.posted ++ (fd_close, 0) ∷ []

-- From `before` to `after` both sockets stay as open as they were, and the next read is asked for.
pub record GoesOn (before after : Link) : Type 0 where
  pub self_open : after.self.is_open ≡ before.self.is_open
  pub partner_open : after.partner.is_open ≡ before.partner.is_open
  pub next_read : after.self.posted ≡ before.self.posted ++ (fd_read, 0) ∷ []

abbrev SendFails : ℕ → List ℕ → (Link → Link) → (Link → Link) → Link → Type 0
SendFails x bytes receives closes l =
    IsLost (take max_tcp_buf_size (x ∷ bytes)) l (receives l)
    × GoesOn (receives l) (closes (receives l))

-- Where nothing waits of a peer whose stream goes on, a Send that fails at once in OnReceive loses the
-- bytes that were read, and its error with them: the socket has handed them out, the partner has
-- taken none, and none waits. The event that is posted carries no error, so OnClose takes it for an
-- orderly end, leaves both sockets as open as they were and asks for the next read.
pub on_receive-send_failed :
    (now error x : ℕ) (bytes : List ℕ) (answers : List Sent) (ready : Readiness)
    (readable pending : Bool) (l : Link)
    → l.self.buffer ≡ []
    → l.self.sent_pos ≡ 0
    → l.self.read_closed ≡ false
    → let r = round x bytes (failed error ∷ answers) ready in
      let l' = on_receive now 0 (r ∷ []) readable pending l in
      IsLost (take max_tcp_buf_size (x ∷ bytes)) l l' × GoesOn l' (on_close 0 pending l')
unfolding on_receive on_close
on_receive-send_failed now error x bytes answers ready readable pending l b p c =
    let r = round x bytes (failed error ∷ answers) ready in
    subst (SendFails x bytes (on_receive now 0 (r ∷ []) readable pending) (on_close 0 pending))
      (idle-eq l b p c)
      (
        record {
          read = refl;
          not_sent = append-nil l.partner.outgoing;
          not_kept = refl;
          no_error = refl;
        },
        record { self_open = refl; partner_open = refl; next_read = refl },
      )

-- The server's timer past the limit posts the error while it connects.
pub record IsArmed (later : ℕ) (l : Link) : Type 0 where
  pub posts_error :
      (on_timer later (flip l)).self.posted ≡ l.partner.posted ++ (fd_close, wsaetimedout) ∷ []

-- Bytes wait for the server, whose monitor is as it was, and whose timer does nothing, however late.
pub record IsDisarmed (bytes : List ℕ) (before after : Link) : Type 0 where
  pub waiting : after.self.buffer ≡ bytes
  pub monitor : after.partner.conn_monitor ≡ before.partner.conn_monitor
  pub sending : after.partner.status ≡ tm_send
  pub never : (time : ℕ) → on_timer time (flip after) ≡ flip after

armed :
    (later : ℕ) (l : Link)
    → l.partner.status ≡ tm_conn
    → is_timeout later l.partner.conn_monitor ≡ true
    → IsArmed later l
unfolding on_timer
armed later l s t = record { posts_error = ground (arith, s, t) }

-- The loop of OnReceive where the partner takes nothing: it ends, the bytes are in the buffer.
record IsBlocked (bytes : List ℕ) (l : Link) (q : Link × ℕ × Option ℕ) : Type 0 where
  pub no_error : q.2 ≡ none
  pub reads_on : q.0.self.read_closed ≡ false
  pub waiting : q.0.self.buffer ≡ bytes
  pub monitor : q.0.partner.conn_monitor ≡ l.partner.conn_monitor
  pub sending : q.0.partner.status ≡ tm_send

receive_data-waiting :
    (now n x y : ℕ) (bytes ys : List ℕ) (answers : List Sent) (ready : Readiness)
    (next : ℕ → Link → Link × ℕ × Option ℕ) (l : Link)
    → l.self.buffer ≡ []
    → l.self.sent_pos ≡ 0
    → (follow next
        (receive_data now (round x bytes (would_block ∷ answers) ready) n (y ∷ ys) l)).0.self.buffer
      ≡ y ∷ ys
unfolding receive_data follow
receive_data-waiting now n x y bytes ys answers ready next l b p = ground (arith, b, p)

receive_loop-waiting :
    (now x : ℕ) (bytes : List ℕ) (answers : List Sent) (ready : Readiness) (l : Link)
    → (receive_loop now (round x bytes (would_block ∷ answers) ready ∷ []) 0 (idle l)).0.self.buffer
      ≡ take max_tcp_buf_size (x ∷ bytes)
unfolding receive_loop
receive_loop-waiting now x bytes answers ready l =
    receive_data-waiting now 0 x x bytes (take (max_tcp_buf_size - 1) bytes) answers ready
      (receive_loop now []) (idle l) refl refl

receive_loop-IsBlocked :
    (now x : ℕ) (bytes : List ℕ) (answers : List Sent) (ready : Readiness) (l : Link)
    → l.self.buffer ≡ []
    → l.self.sent_pos ≡ 0
    → l.self.read_closed ≡ false
    → IsBlocked
        (take max_tcp_buf_size (x ∷ bytes))
        l
        (receive_loop now (round x bytes (would_block ∷ answers) ready ∷ []) 0 l)
unfolding receive_loop
receive_loop-IsBlocked now x bytes answers ready l b p c = record {
  no_error = ground (arith, b, p, c);
  reads_on = ground (arith, b, p, c);
  waiting =
      subst
        (λ k.
          (receive_loop now (round x bytes (would_block ∷ answers) ready ∷ []) 0 k).0.self.buffer
          ≡ take max_tcp_buf_size (x ∷ bytes))
        (idle-eq l b p c) (receive_loop-waiting now x bytes answers ready l);
  monitor = ground (arith, b, p, c);
  sending = ground (arith, b, p, c);
}

-- OnReceive behind its loop keeps what the loop leaves.
end_receive-IsDisarmed :
    (bytes : List ℕ) (before l : Link) (q : Link × ℕ × Option ℕ) (readable pending : Bool)
    → IsBlocked bytes l q
    → l.partner.conn_monitor ≡ before.partner.conn_monitor
    → IsDisarmed bytes before (end_receive readable pending q.0 q.1 q.2)
unfolding end_receive on_timer
end_receive-IsDisarmed bytes before l q readable pending v m = rw (v.no_error) (record {
  waiting = ground (arith, v.reads_on, v.waiting);
  monitor = ground (arith, v.reads_on, v.monitor, m);
  sending = ground (arith, v.reads_on, v.sending);
  never = λ time. ground (arith, v.reads_on, v.sending);
})

abbrev Disarms : ℕ → List ℕ → (Link → Link) → (Link → Link) → Link → Type 0
Disarms later bytes closes receives l =
    GoesOn l (closes l)
    × IsArmed later (closes l)
    × IsDisarmed bytes (closes l) (receives (closes l))

-- The client that sends and closes its half while the server is connecting takes the timeout of the
-- connection away; nothing of it waits before. Behind its close, which asks for the next read, the
-- server's timer past the limit still posts the error; behind that read, of which the server takes
-- nothing yet, the bytes wait, the server's status is that of sending, its monitor is as it was, and
-- its timer does nothing, however late.
pub on_receive-disarms :
    (now later x : ℕ) (bytes : List ℕ) (answers : List Sent) (ready : Readiness)
    (readable pending : Bool) (l : Link)
    → l.self.buffer ≡ []
    → l.self.sent_pos ≡ 0
    → l.self.read_closed ≡ false
    → l.partner.status ≡ tm_conn
    → is_timeout later l.partner.conn_monitor ≡ true
    → let r = round x bytes (would_block ∷ answers) ready in
      let closing = on_close 0 pending l in
      let l' = on_receive now 0 (r ∷ []) readable pending closing in
      GoesOn l closing
      × IsArmed later closing
      × IsDisarmed (take max_tcp_buf_size (x ∷ bytes)) closing l'
unfolding on_receive on_close on_timer
on_receive-disarms now later x bytes answers ready readable pending l b p c s t =
    let r = round x bytes (would_block ∷ answers) ready in
    let closes = on_close 0 pending in
    let started = start_receiving now (closes (idle l)) in
    let bytes' = take max_tcp_buf_size (x ∷ bytes) in
    subst (Disarms later bytes' closes (on_receive now 0 (r ∷ []) readable pending))
      (idle-eq l b p c)
      (
        record { self_open = refl; partner_open = refl; next_read = refl },
        armed later (closes (idle l)) s t,
        end_receive-IsDisarmed bytes' (closes (idle l)) started
            (receive_loop now (r ∷ []) 0 started) readable pending
            (receive_loop-IsBlocked now x bytes answers ready started refl refl refl) refl,
      )
