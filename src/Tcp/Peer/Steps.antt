-- ===== src/Tcp/Peer/Steps.antt =====
-- Each step of the handlers of src/ProxyLaneHook/PRCTcpPeer.cpp keeps both directions of a TCP task.
use proxy_lane.Common.{
  ℕ, zero, suc, ◌≤◌, ◌≡◌, refl, sym, ap, ◌∙◌, Bool, true, false, List, [], ◌∷◌, ◌++◌, append_assoc,
  arith, length, drop, length-append, length-drop,
}
use proxy_lane.Tcp.Peer.{
  tm_send, Peer, Link, is_empty, unsent, valid_data_len, Sent, send_loop, transfer_send,
  propagate_half_close, try_finish_connection,
}
use proxy_lane.Tcp.Peer.Flow.{may_clear, IsRelay, transfer_send-forward}
use proxy_lane.Tcp.Peer.Handlers.{store, close_reading}

pub drop-append_within :
    (n : ℕ) (xs ys : List ℕ) → n ≤ length xs → drop n (xs ++ ys) ≡ drop n xs ++ ys
drop-append_within zero xs ys h = refl
drop-append_within (suc n) [] ys h = absurd (omega (arith, h))
drop-append_within (suc n) (x ∷ xs) ys h = drop-append_within n xs ys (omega (arith, h))

pub valid-length : (p : Peer) → valid_data_len p ≡ length (unsent p)
valid-length p = sym (length-drop p.sent_pos p.buffer)

transfer_send-within :
    (now : ℕ) (answers : List Sent) (l : Link)
    → l.self.sent_pos ≤ length l.self.buffer
    → let a = (transfer_send now answers l).0.self in a.sent_pos ≤ length a.buffer
unfolding transfer_send
transfer_send-within now answers l h =
    let sent : List ℕ = (send_loop answers (unsent l.self)).0 in
    ground (arith, h, length-drop l.self.sent_pos l.self.buffer)

transfer_send-empty :
    (now : ℕ) (answers : List Sent) (l : Link)
    → valid_data_len l.self ≡ 0
    → is_empty (transfer_send now answers l).0.self.buffer ≡ true
unfolding transfer_send
transfer_send-empty now answers l h = ground (arith, h, length-drop l.self.sent_pos l.self.buffer)

pub transfer_send-valid :
    (now : ℕ) (answers : List Sent) (l : Link)
    → valid_data_len l.self ≡ 0
    → valid_data_len (transfer_send now answers l).0.self ≡ 0
unfolding transfer_send
transfer_send-valid now answers l h = ground (arith, h, length-drop l.self.sent_pos l.self.buffer)

transfer_send-quiet :
    (now : ℕ) (answers : List Sent) (l : Link)
    → is_empty l.self.buffer ≡ true
    → is_empty (transfer_send now answers l).0.self.buffer ≡ true
unfolding transfer_send
transfer_send-quiet now answers l h = ground (arith, h)

-- What the transfer leaves alone.
pub record Moved (l t : Link) : Type 0 where
  pub self_read_closed : t.self.read_closed ≡ l.self.read_closed
  pub self_write_shutdown : t.self.write_shutdown ≡ l.self.write_shutdown
  pub self_fully_closing : t.self.fully_closing ≡ l.self.fully_closing
  pub self_status : t.self.status ≡ l.self.status
  pub self_outgoing : t.self.outgoing ≡ l.self.outgoing
  pub partner_read_closed : t.partner.read_closed ≡ l.partner.read_closed
  pub partner_write_shutdown : t.partner.write_shutdown ≡ l.partner.write_shutdown
  pub partner_fully_closing : t.partner.fully_closing ≡ l.partner.fully_closing
  pub partner_status : t.partner.status ≡ tm_send
  pub partner_buffer : t.partner.buffer ≡ l.partner.buffer
  pub partner_sent_pos : t.partner.sent_pos ≡ l.partner.sent_pos
  pub partner_incoming : t.partner.incoming ≡ l.partner.incoming

pub transfer_send-Moved :
    (now : ℕ) (answers : List Sent) (l : Link) → Moved l (transfer_send now answers l).0
unfolding transfer_send
transfer_send-Moved now answers l = record {
  self_read_closed = refl;
  self_write_shutdown = refl;
  self_fully_closing = refl;
  self_status = refl;
  self_outgoing = refl;
  partner_read_closed = refl;
  partner_write_shutdown = refl;
  partner_fully_closing = refl;
  partner_status = refl;
  partner_buffer = refl;
  partner_sent_pos = refl;
  partner_incoming = refl;
}

pub transfer_send-IsRelay :
    (now : ℕ) (answers : List Sent) (l : Link) → IsRelay l → IsRelay (transfer_send now answers l).0
transfer_send-IsRelay now answers l v =
    let m = transfer_send-Moved now answers l in
    record {
      ahead = record {
        forward = transfer_send-forward now answers l v.ahead.forward;
        within = transfer_send-within now answers l v.ahead.within;
        fin = λ h.
            let f = v.ahead.fin (sym m.partner_write_shutdown ∙ h) in
            (m.self_read_closed ∙ f.0, transfer_send-valid now answers l f.1);
        finished = λ h.
            let f = v.ahead.finished (sym m.self_fully_closing ∙ h) in
            (m.self_read_closed ∙ f.0, transfer_send-valid now answers l f.1);
        quiet = λ h.
            transfer_send-quiet now answers l
              (v.ahead.quiet (ap may_clear (sym m.self_status) ∙ h));
      };
      back = record {
        forward = unfold transfer_send in v.back.forward;
        within = unfold transfer_send in v.back.within;
        fin = unfold transfer_send in v.back.fin;
        finished = unfold transfer_send in v.back.finished;
        quiet = unfold transfer_send in λ h. cc;
      };
    }

pub store-IsRelay :
    (bytes : List ℕ) (l : Link)
    → l.self.read_closed ≡ false
    → may_clear l.self.status ≡ false
    → IsRelay l
    → IsRelay (store bytes l)
store-IsRelay bytes l open_end not_quiet v = record {
  ahead = record {
    forward =
        ap (λ t. l.partner.outgoing ++ t)
          (drop-append_within l.self.sent_pos l.self.buffer bytes v.ahead.within)
        ∙ sym (append_assoc l.partner.outgoing (unsent l.self) bytes)
        ∙ ap (λ t. t ++ bytes) v.ahead.forward;
    within = omega (arith, v.ahead.within, length-append l.self.buffer bytes);
    fin = λ h. absurd (ground (arith, v.ahead.fin h, open_end));
    finished = λ h. absurd (ground (arith, v.ahead.finished h, open_end));
    quiet = λ h. absurd (ground (arith, h, not_quiet));
  };
  back = record {
    forward = v.back.forward;
    within = v.back.within;
    fin = v.back.fin;
    finished = v.back.finished;
    quiet = v.back.quiet;
  };
}

pub close_reading-IsRelay : (l : Link) → IsRelay l → IsRelay (close_reading l)
close_reading-IsRelay l v = record {
  ahead = record {
    forward = v.ahead.forward;
    within = v.ahead.within;
    fin = λ h. (refl, (v.ahead.fin h).1);
    finished = λ h. (refl, (v.ahead.finished h).1);
    quiet = v.ahead.quiet;
  };
  back = record {
    forward = v.back.forward;
    within = v.back.within;
    fin = v.back.fin;
    finished = v.back.finished;
    quiet = v.back.quiet;
  };
}

pub propagate_half_close-IsRelay :
    (pending : Bool) (l : Link) → IsRelay l → IsRelay (propagate_half_close pending l)
unfolding propagate_half_close
propagate_half_close-IsRelay pending l v = ground (arith, v)

pub try_finish_connection-IsRelay : (l : Link) → IsRelay l → IsRelay (try_finish_connection l)
unfolding try_finish_connection
try_finish_connection-IsRelay l v = ground (arith, v)
