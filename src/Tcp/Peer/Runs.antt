-- ===== src/Tcp/Peer/Runs.antt =====
-- Runs of a TCP task, src/ProxyLaneHook/PRCTcpPeer.cpp: lists of the events of its two sockets and of
-- its timer, each with what the sockets answer.
use proxy_lane.Common.{
  append-nil, ℕ, ◌≡◌, refl, sym, ap, ◌∙◌, Bool, true, false, not, List, [], ◌∷◌, ◌++◌, arith, ltb,
  ◌==◌, if◌then◌else◌, length, All,
}
use proxy_lane.Tcp.Peer.{
  Status, tm_0, tm_dns, tm_conn, tm_recv, tm_send, tm_idle, tm_shut, tm_close, Peer, Link, flip,
  is_empty, unsent, valid_data_len, Sent, trigger_event, fd_read, fd_write, fd_close,
  propagate_half_close, try_finish_connection, new_peer, close_socket, on_peer_closed, is_timeout,
}
use proxy_lane.Tcp.Peer.Flow.{Flow, may_clear, IsRelay, IsRelay-flip, NoSendError, unsent_none}
use proxy_lane.Tcp.Peer.Steps.{propagate_half_close-IsRelay}
use proxy_lane.Tcp.Peer.Receiving.{
  FineRound, FineReadiness, finish-IsRelay, on_receive-IsRelay, on_send-IsRelay,
}
use proxy_lane.Tcp.Peer.Handlers.{
  on_timer_at, on_connect_started, Readiness, Round, time_out, connecting, on_timer, on_connect,
  on_close, on_receive, on_send,
}

-- A handler's call with its clock, its error and the answers of the sockets.
pub data Action : Type 0 where
  receive : ℕ → ℕ → List Round → Bool → Bool → Action
  send : ℕ → ℕ → List Sent → Readiness → Bool → Bool → Action
  connect : ℕ → ℕ → Bool → Bool → Bool → Action
  close : ℕ → Bool → Action
  timer : ℕ → Action

unfoldable pub act : Action → Link → Link
unfolding on_receive on_send on_connect on_close on_timer
act (receive now error rounds readable pending) l = on_receive now error rounds readable pending l
act (send now error answers readable secure pending) l =
    on_send now error answers readable secure pending l
act (connect now error writable readable pending) l =
    on_connect now error writable readable pending l
act (close error pending) l = on_close error pending l
act (timer now) l = on_timer now l

-- The Boolean says that the event is the client's; the link is the server's.
unfoldable pub step : Bool × Action → Link → Link
unfolding act
step (true, a) l = flip (act a (flip l))
step (false, a) l = act a l

unfoldable pub run : List (Bool × Action) → Link → Link
unfolding step
run [] l = l
run (a ∷ actions) l = run actions (step a l)

-- SetTaskInfo, where the sockets were made and the connection is under way.
unfoldable pub new_link : ℕ → Link
unfolding connecting new_peer
new_link now =
    connecting now
      (record { self = new_peer now true; partner = new_peer now false; delete_pending = false })

-- The sockets answer without an error, and nothing comes behind the end of a stream.
abbrev pub Answers : Peer → Action → Type 0
Answers p (receive now error rounds readable pending) = All (FineRound p.read_closed) rounds
Answers p (send now error answers readable secure pending) =
    NoSendError answers × FineReadiness readable
Answers p (connect now error writable readable pending) = Unit
Answers p (close error pending) = Unit
Answers p (timer now) = Unit

abbrev pub actor : Bool → Link → Peer
actor true l = l.partner
actor false l = l.self

abbrev pub AnswersAlong : List (Bool × Action) → Link → Type 0
AnswersAlong [] l = Unit
AnswersAlong (a ∷ actions) l = Answers (actor a.0 l) a.1 × AnswersAlong actions (step a l)

on_peer_closed-IsRelay : (l : Link) → IsRelay l → IsRelay (on_peer_closed l)
on_peer_closed-IsRelay l v = ground (arith, v)

IsRelay-if : (b : Bool) (x y : Link) → IsRelay x → IsRelay y → IsRelay (if b then x else y)
IsRelay-if true x y v w = v
IsRelay-if false x y v w = w

on_close-IsRelay :
    (error : ℕ) (pending : Bool) (l : Link) → IsRelay l → IsRelay (on_close error pending l)
unfolding on_close
on_close-IsRelay error pending l v =
    let shut : Link = record l { self = record l.self { conn_shutted = true } } in
    let s : IsRelay shut = ground (arith, v) in
    let drain : Link = record shut {
      self =
          trigger_event fd_read 0
            (record shut.self { selected = fd_read ∷ fd_write ∷ fd_close ∷ [] });
    } in
    let d : IsRelay drain = ground (arith, v) in
    let closed : Link = record shut {
      self = record (close_socket shut.self) { status = tm_close; last_error = error };
      partner = if l.partner.is_open then close_socket l.partner else l.partner;
    } in
    let c : IsRelay closed = ground (arith, v) in
    let finished : Link = try_finish_connection (propagate_half_close pending shut) in
    let inner : Link = if l.self.read_closed then finished else drain in
    let i = IsRelay-if l.self.read_closed finished drain (finish-IsRelay pending shut s) d in
    let busy = ltb 0 (valid_data_len l.self) in
    IsRelay-if (error == 0) (if busy then shut else inner) (on_peer_closed closed)
      (IsRelay-if busy shut inner s i) (on_peer_closed-IsRelay closed c)

-- What OnConnect does before it passes the end of the client's stream on.
on_connect_open :
    (now : ℕ) (writable readable : Bool) (l : Link)
    → IsRelay l
    → IsRelay (on_connect_started now writable readable l)
on_connect_open now writable readable l v = ground (arith, v)

on_connect-IsRelay :
    (now error : ℕ) (writable readable pending : Bool) (l : Link)
    → IsRelay l
    → IsRelay (on_connect now error writable readable pending l)
unfolding on_connect
on_connect-IsRelay now error writable readable pending l v =
    let started : Link = on_connect_started now writable readable l in
    let s = on_connect_open now writable readable l v in
    let back =
      IsRelay-flip (propagate_half_close pending (flip started))
        (propagate_half_close-IsRelay pending (flip started) (IsRelay-flip started s)) in
    IsRelay-if (not (error == 0)) (on_close error pending l)
      (flip (propagate_half_close pending (flip started))) (on_close-IsRelay error pending l v) back

empty_of : (xs : List ℕ) → is_empty xs ≡ true → xs ≡ []
empty_of [] h = refl
empty_of (x ∷ xs) h = absurd (cc)

unsent_empty : (p : Peer) → is_empty p.buffer ≡ true → unsent p ≡ []
unsent_empty p h = unsent_none p.sent_pos p.buffer (omega (arith, ap length (empty_of p.buffer h)))

time_out-IsRelay :
    (l : Link)
    → may_clear l.self.status ≡ true
    → IsRelay l
    → IsRelay (record l { self = time_out l.self })
time_out-IsRelay l q v = record {
  ahead = record {
    forward =
        ap (λ t. l.partner.outgoing ++ t) (sym (unsent_empty l.self (v.ahead.quiet q)))
        ∙ v.ahead.forward;
    within = omega arith;
    fin = λ h. ((v.ahead.fin h).0, omega arith);
    finished = λ h. ((v.ahead.finished h).0, omega arith);
    quiet = λ h. refl;
  };
  back = ground (arith, v);
}

on_timer_at-IsRelay :
    (s : Status) (now : ℕ) (l : Link)
    → (may_clear s ≡ true → may_clear l.self.status ≡ true)
    → IsRelay l
    → IsRelay (on_timer_at s now l)
unfolding on_timer_at
on_timer_at-IsRelay tm_conn now l h v =
    IsRelay-if (is_timeout now l.self.conn_monitor) (record l { self = time_out l.self }) l
      (time_out-IsRelay l (h refl) v) v
on_timer_at-IsRelay tm_shut now l h v =
    IsRelay-if (is_timeout now l.self.shut_monitor) (record l { self = time_out l.self }) l
      (time_out-IsRelay l (h refl) v) v
on_timer_at-IsRelay tm_0 now l h v = v
on_timer_at-IsRelay tm_dns now l h v = v
on_timer_at-IsRelay tm_recv now l h v = v
on_timer_at-IsRelay tm_send now l h v = v
on_timer_at-IsRelay tm_idle now l h v = v
on_timer_at-IsRelay tm_close now l h v = v

on_timer-IsRelay : (now : ℕ) (l : Link) → IsRelay l → IsRelay (on_timer now l)
unfolding on_timer
on_timer-IsRelay now l v = on_timer_at-IsRelay l.self.status now l (λ h. h) v

delivered : (a b : Peer) → Flow a b → valid_data_len a ≡ 0 → b.outgoing ≡ a.incoming
delivered a b f h =
    sym (append-nil b.outgoing)
    ∙ ap (λ t. b.outgoing ++ t) (sym (unsent_none a.sent_pos a.buffer h))
    ∙ f.forward

act-IsRelay : (a : Action) (l : Link) → Answers l.self a → IsRelay l → IsRelay (act a l)
act-IsRelay (receive now error rounds readable pending) l h v =
    unfold act in on_receive-IsRelay now error rounds readable pending l h v
act-IsRelay (send now error answers readable secure pending) l h v =
    unfold act in on_send-IsRelay now error answers readable secure pending l h.0 h.1 v
act-IsRelay (connect now error writable readable pending) l h v =
    unfold act in on_connect-IsRelay now error writable readable pending l v
act-IsRelay (close error pending) l h v = unfold act in on_close-IsRelay error pending l v
act-IsRelay (timer now) l h v = unfold act in on_timer-IsRelay now l v

step-IsRelay :
    (a : Bool × Action) (l : Link) → Answers (actor a.0 l) a.1 → IsRelay l → IsRelay (step a l)
unfolding step
step-IsRelay (true, a) l h v =
    IsRelay-flip (act a (flip l)) (act-IsRelay a (flip l) h (IsRelay-flip l v))
step-IsRelay (false, a) l h v = act-IsRelay a l h v

run-IsRelay :
    (actions : List (Bool × Action)) (l : Link)
    → AnswersAlong actions l
    → IsRelay l
    → IsRelay (run actions l)
unfolding run
run-IsRelay [] l h v = v
run-IsRelay (a ∷ actions) l h v = run-IsRelay actions (step a l) h.1 (step-IsRelay a l h.0 v)

new_link-IsRelay : (now : ℕ) → IsRelay (new_link now)
unfolding new_link
new_link-IsRelay now = ground arith

-- In every run of a new task in which the sockets answer without an error: what each side has taken
-- is the front of what the other side handed out, in its order, and the rest waits in the buffer;
-- and a side's writing is shut down, or the link finished, only when the other side's stream has
-- ended and nothing of it waits.
pub run-new_link-IsRelay :
    (now : ℕ) (actions : List (Bool × Action))
    → AnswersAlong actions (new_link now)
    → IsRelay (run actions (new_link now))
run-new_link-IsRelay now actions h = run-IsRelay actions (new_link now) h (new_link-IsRelay now)

-- Half-closing loses nothing: in such a run a side whose writing was shut down, which carries the end
-- of the other side's stream, has taken the whole of what that side handed out.
run-half_close :
    (now : ℕ) (actions : List (Bool × Action))
    → AnswersAlong actions (new_link now)
    → let l = run actions (new_link now) in
      (l.partner.write_shutdown ≡ true → l.partner.outgoing ≡ l.self.incoming)
      × (l.self.write_shutdown ≡ true → l.self.outgoing ≡ l.partner.incoming)
run-half_close now actions h =
    let v = run-IsRelay actions (new_link now) h (new_link-IsRelay now) in
    let l : Link = run actions (new_link now) in
    (
      λ k. delivered l.self l.partner v.ahead (v.ahead.fin k).1,
      λ k. delivered l.partner l.self v.back (v.back.fin k).1,
    )
