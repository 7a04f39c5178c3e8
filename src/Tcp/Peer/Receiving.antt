-- ===== src/Tcp/Peer/Receiving.antt =====
-- OnReceive and OnSend of src/ProxyLaneHook/PRCTcpPeer.cpp keep both directions of a TCP task.
use mathlib.Core.Path.{sym, subst}
use proxy_lane.Common.{
  ℕ, ◌+◌, ◌-◌, ◌≡◌, refl, ap, ◌∙◌, inl, inr, Bool, true, false, not, ◌&&◌, ◌||◌, Option, none, some,
  List, [], ◌∷◌, arith, ltb, leb, ◌==◌, length, take, All, Bool-cases,
}
use proxy_lane.Tcp.Peer.{
  fd_read, Event, trigger_event, max_event_read_bytes, Link, flip, is_empty, unsent, valid_data_len,
  Sent, send_loop, transfer_send, propagate_half_close, try_finish_connection, max_tcp_buf_size,
}
use proxy_lane.Tcp.Peer.Flow.{may_clear, IsRelay, IsRelay-flip, NoSendError, send_loop-fine}
use proxy_lane.Tcp.Peer.Steps.{
  transfer_send-Moved, transfer_send-IsRelay, store-IsRelay, close_reading-IsRelay,
  propagate_half_close-IsRelay, try_finish_connection-IsRelay,
}
use proxy_lane.Tcp.Peer.Handlers.{
  start_sending, follow, Received, got, no_data, end_of_stream, receive_failed, Readiness,
  select_failed, not_ready, is_ready, Round, Outcome, ended, again, store, after_transfer,
  receive_data, receive_round, receive_loop, start_receiving, end_receive, on_receive, after_send,
  finish_partner, on_send,
}

-- Answers without an error; `closed` says that the stream has ended, behind which nothing comes.
abbrev pub FineReceived : Bool → Received → Type 0
FineReceived closed (got bytes) = closed ≡ false
FineReceived closed no_data = Unit
FineReceived closed end_of_stream = Unit
FineReceived closed (receive_failed error) = ⊥

abbrev pub FineReadiness : Readiness → Type 0
FineReadiness select_failed = ⊥
FineReadiness not_ready = Unit
FineReadiness is_ready = Unit

abbrev pub FineRound : Bool → Round → Type 0
FineRound closed r = FineReceived closed r.receive × NoSendError r.send × FineReadiness r.readable

-- What a round leaves.
Good : Bool → Outcome → Type 0
Good closed (ended l n none) = IsRelay l
Good closed (ended l n (some error)) = ⊥
Good closed (again l n) =
    IsRelay l × (l.self.read_closed ≡ closed) × (may_clear l.self.status ≡ false)

after_transfer-Good :
    (closed : Bool) (readable : Readiness) (n total sent : ℕ) (l : Link)
    → FineReadiness readable
    → IsRelay l
    → l.self.read_closed ≡ closed
    → may_clear l.self.status ≡ false
    → Good closed (after_transfer readable n total l (some sent))
unfolding after_transfer Good
after_transfer-Good closed select_failed n total sent l f v c q = absurd f
after_transfer-Good closed not_ready n total sent l f v c q = elim (Bool-cases (ltb sent total)) [
  | inl e ↦ rw e v
  | inr e ↦ rw e v
]
after_transfer-Good closed is_ready n total sent l f v c q = elim (Bool-cases (ltb sent total)) [
  | inl e ↦ rw e v
  | inr e ↦ rw e (v, c, q)
]

pub transfer_send-fine :
    (now : ℕ) (answers : List Sent) (l : Link)
    → NoSendError answers
    → (transfer_send now answers l).1 ≡ some (length (send_loop answers (unsent l.self)).0)
unfolding transfer_send
transfer_send-fine now answers l h = ground (arith, send_loop-fine answers (unsent l.self) h)

receive_data-Good :
    (now : ℕ) (r : Round) (n : ℕ) (bytes : List ℕ) (l : Link)
    → NoSendError r.send
    → FineReadiness r.readable
    → IsRelay l
    → l.self.read_closed ≡ false
    → may_clear l.self.status ≡ false
    → Good false (receive_data now r n bytes l)
unfolding receive_data
receive_data-Good now r n bytes l sends ready v c q =
    let stored : Link = store bytes l in
    let m = transfer_send-Moved now r.send stored in
    let relay = transfer_send-IsRelay now r.send stored (store-IsRelay bytes l c q v) in
    rw (transfer_send-fine now r.send stored sends) (
      after_transfer-Good false r.readable (n + length bytes) (length stored.self.buffer)
        (length (send_loop r.send (unsent stored.self)).0) (transfer_send now r.send stored).0 ready
        relay (m.self_read_closed ∙ c) (ap may_clear m.self_status ∙ q))

round-Good :
    (now n : ℕ) (closed : Bool) (answer : Received) (r : Round) (l : Link)
    → r.receive ≡ answer
    → l.self.read_closed ≡ closed
    → FineReceived closed answer
    → NoSendError r.send
    → FineReadiness r.readable
    → IsRelay l
    → may_clear l.self.status ≡ false
    → Good closed (receive_round now r n l)
unfolding receive_round
round-Good now n closed (got bytes) r l e c fine sends ready v q =
    let g =
      receive_data-Good now r n (take (max_tcp_buf_size - length l.self.buffer) bytes) l sends ready
        v (c ∙ fine) q in
    rw (e, fine) g
round-Good now n closed no_data r l e c fine sends ready v q = rw e (unfold Good in v)
round-Good now n closed end_of_stream r l e c fine sends ready v q =
    rw e (unfold Good in close_reading-IsRelay l v)
round-Good now n closed (receive_failed error) r l e c fine sends ready v q = absurd fine

Fine : Link × ℕ × Option ℕ → Type 0
Fine r = IsRelay r.0 × (r.2 ≡ none)

follow-Fine :
    (closed : Bool) (next : ℕ → Link → Link × ℕ × Option ℕ) (o : Outcome)
    → ((n : ℕ) (l : Link)
        → IsRelay l
        → l.self.read_closed ≡ closed
        → may_clear l.self.status ≡ false
        → Fine (next n l))
    → Good closed o
    → Fine (follow next o)
unfolding follow Good Fine
follow-Fine closed next (ended l n none) rest g = (g, refl)
follow-Fine closed next (ended l n (some error)) rest g = absurd g
follow-Fine closed next (again l n) rest g = rest n l g.0 g.1 g.2

receive_loop-Fine :
    (now : ℕ) (closed : Bool) (rounds : List Round) (n : ℕ) (l : Link)
    → All (FineRound closed) rounds
    → IsRelay l
    → l.self.read_closed ≡ closed
    → may_clear l.self.status ≡ false
    → Fine (receive_loop now rounds n l)
unfolding receive_loop Fine
receive_loop-Fine now closed [] n l fine v c q = (v, refl)
receive_loop-Fine now closed (r ∷ rounds) n l fine v c q =
    let g = round-Good now n closed r.receive r l refl c fine.0.0 fine.0.1 fine.0.2 v q in
    let rest =
      follow-Fine closed (receive_loop now rounds) (receive_round now r n l)
        (λ n' l' v' c' q'. receive_loop-Fine now closed rounds n' l' fine.1 v' c' q') g in
    elim (Bool-cases (
      ltb (length l.self.buffer) max_tcp_buf_size
      && (ltb n max_event_read_bytes || l.self.read_closed))) [
        | inl e ↦ rw e rest
        | inr e ↦ rw e (v, refl)
      ]

pub finish-IsRelay :
    (pending : Bool) (l : Link)
    → IsRelay l
    → IsRelay (try_finish_connection (propagate_half_close pending l))
finish-IsRelay pending l v =
    try_finish_connection-IsRelay (propagate_half_close pending l)
      (propagate_half_close-IsRelay pending l v)

pub trigger_event-IsRelay :
    (event : Event) (error : ℕ) (l : Link)
    → IsRelay l
    → IsRelay (record l { self = trigger_event event error l.self })
trigger_event-IsRelay event error l v = ground (arith, v)

end_receive-IsRelay :
    (readable pending : Bool) (l : Link) (n : ℕ)
    → IsRelay l
    → IsRelay (end_receive readable pending l n none)
unfolding end_receive
end_receive-IsRelay readable pending l n v =
    elim (Bool-cases (not l.self.read_closed && leb max_event_read_bytes n && readable)) [
      | inl e ↦ rw e (
          finish-IsRelay pending (record l { self = trigger_event fd_read 0 l.self })
            (trigger_event-IsRelay fd_read 0 l v))
      | inr e ↦ rw e (finish-IsRelay pending l v)
    ]

start_receiving-IsRelay : (now : ℕ) (l : Link) → IsRelay l → IsRelay (start_receiving now l)
start_receiving-IsRelay now l v = ground (arith, v)

-- OnReceive keeps both directions, whatever the sockets answer without an error.
pub on_receive-IsRelay :
    (now error : ℕ) (rounds : List Round) (readable pending : Bool) (l : Link)
    → All (FineRound l.self.read_closed) rounds
    → IsRelay l
    → IsRelay (on_receive now error rounds readable pending l)
on_receive-IsRelay now error rounds readable pending l fine v =
    let started = start_receiving now l in
    let s = start_receiving-IsRelay now l v in
    let f = receive_loop-Fine now l.self.read_closed rounds 0 started fine s refl refl in
    let f' : IsRelay (receive_loop now rounds 0 started).0
        × ((receive_loop now rounds 0 started).2 ≡ none) =
      unfold Fine in f in
    let done : IsRelay (
        end_receive readable pending (receive_loop now rounds 0 started).0
          (receive_loop now rounds 0 started).1 (receive_loop now rounds 0 started).2) =
      rw f'.1 (
        end_receive-IsRelay readable pending (receive_loop now rounds 0 started).0
          (receive_loop now rounds 0 started).1 f'.0) in
    elim (Bool-cases (error == 0)) [
      | inr e ↦ unfold on_receive in rw e v
      | inl e ↦ elim (Bool-cases (is_empty l.self.buffer)) [
        | inr b ↦ unfold on_receive in rw (e, b) s
        | inl b ↦ unfold on_receive in rw (e, b) done
      ]
    ]

after_send-fine :
    (readable : Readiness) (secure : Bool) (total sent : ℕ) (l : Link)
    → FineReadiness readable
    → IsRelay l
    → IsRelay (after_send readable secure total l (some sent)).0
      × ((after_send readable secure total l (some sent)).1 ≡ true)
unfolding after_send
after_send-fine select_failed secure total sent l f v = absurd f
after_send-fine not_ready secure total sent l f v = (ground (arith, v), refl)
after_send-fine is_ready secure total sent l f v = (ground (arith, v), refl)

pub finish_partner-IsRelay :
    (pending : Bool) (l : Link) → IsRelay l → IsRelay (finish_partner pending l)
unfolding finish_partner
finish_partner-IsRelay pending l v =
    IsRelay-flip (try_finish_connection (propagate_half_close pending (flip l)))
      (finish-IsRelay pending (flip l) (IsRelay-flip l v))

start_sending-IsRelay : (now : ℕ) (l : Link) → IsRelay l → IsRelay (start_sending now l)
start_sending-IsRelay now l v = ground (arith, v)

module _ (now error : ℕ) (answers : List Sent) (readable : Readiness) (secure pending : Bool)
    (l : Link) where
  on_send-error : (error == 0) ≡ false → on_send now error answers readable secure pending l ≡ l
  unfolding on_send
  on_send-error e = rw e

  on_send-idle :
      (error == 0) ≡ true
      → (valid_data_len l.partner == 0) ≡ true
      → on_send now error answers readable secure pending l
        ≡ finish_partner pending (start_sending now l)
  unfolding on_send
  on_send-idle e b = rw (e, b)

  on_send-moved :
      (sent : ℕ)
      → (error == 0) ≡ true
      → (valid_data_len l.partner == 0) ≡ false
      → let t = transfer_send now answers (flip (start_sending now l)) in
        let woken = after_send readable secure (valid_data_len l.partner) (flip t.0) (some sent) in
        t.1 ≡ some sent
        → woken.1 ≡ true
        → on_send now error answers readable secure pending l ≡ finish_partner pending woken.0
  unfolding on_send
  on_send-moved sent e b fine woken = rw (e, b, fine, woken)

-- OnSend keeps both directions, too.
pub on_send-IsRelay :
    (now error : ℕ) (answers : List Sent) (readable : Readiness) (secure pending : Bool) (l : Link)
    → NoSendError answers
    → FineReadiness readable
    → IsRelay l
    → IsRelay (on_send now error answers readable secure pending l)
on_send-IsRelay now error answers readable secure pending l sends ready v =
    let started : Link = start_sending now l in
    let s = start_sending-IsRelay now l v in
    let back : Link = flip started in
    let moved : Link = (transfer_send now answers back).0 in
    let m : IsRelay moved = transfer_send-IsRelay now answers back (IsRelay-flip started s) in
    let sent : ℕ = length (send_loop answers (unsent back.self)).0 in
    let fine = transfer_send-fine now answers back sends in
    let woken =
      after_send-fine readable secure (valid_data_len l.partner) sent (flip moved) ready
        (IsRelay-flip moved m) in
    let last : Link =
      (after_send readable secure (valid_data_len l.partner) (flip moved) (some sent)).0 in
    elim (Bool-cases (error == 0)) [
      | inr e ↦ subst IsRelay (sym (on_send-error now error answers readable secure pending l e)) v
      | inl e ↦ elim (Bool-cases (valid_data_len l.partner == 0)) [
        | inl b ↦
            subst IsRelay (sym (on_send-idle now error answers readable secure pending l e b))
              (finish_partner-IsRelay pending started s)
        | inr b ↦
            subst IsRelay
              (sym
                (on_send-moved now error answers readable secure pending l sent e b fine woken.1))
              (finish_partner-IsRelay pending last woken.0)
      ]
    ]
