-- ===== src/Tcp/Peer/Flow.antt =====
-- What one direction of a TCP task keeps, in src/ProxyLaneHook/PRCTcpPeer.cpp.
use proxy_lane.Common.{
  ℕ, zero, suc, ◌-◌, ◌≤◌, ◌≡◌, refl, sym, ap, ◌∙◌, inl, inr, Bool, true, false, List, [], ◌∷◌, ◌++◌,
  append_assoc, arith, leb, length, take, drop, length-append, take-append-drop, Bool-cases,
  drop-add,
}
use proxy_lane.Tcp.Peer.{
  Status, tm_conn, tm_shut, Peer, Link, flip, is_empty, unsent, valid_data_len, Sent, taken,
  would_block, failed, send_loop, transfer_send,
}

-- The states in which a timeout clears the buffer.
abbrev pub may_clear : Status → Bool
may_clear tm_conn = true
may_clear tm_shut = true
may_clear _ = false

-- From `a` to `b`: what `b` took and what waits for it are what `a` received; the FIN and the final
-- close come only behind the end of the stream, when nothing waits.
pub record Flow (a b : Peer) : Type 0 where
  pub forward : b.outgoing ++ unsent a ≡ a.incoming
  pub within : a.sent_pos ≤ length a.buffer
  pub fin : b.write_shutdown ≡ true → (a.read_closed ≡ true) × (valid_data_len a ≡ 0)
  pub finished : a.fully_closing ≡ true → (a.read_closed ≡ true) × (valid_data_len a ≡ 0)
  pub quiet : may_clear a.status ≡ true → is_empty a.buffer ≡ true

pub record IsRelay (l : Link) : Type 0 where
  pub ahead : Flow l.self l.partner
  pub back : Flow l.partner l.self

pub IsRelay-flip : (l : Link) → IsRelay l → IsRelay (flip l)
IsRelay-flip l v = record { ahead = v.back; back = v.ahead }

-- Answers of Send among which there is no error.
abbrev pub NoSendError : List Sent → Type 0
NoSendError [] = Unit
NoSendError (taken n ∷ answers) = NoSendError answers
NoSendError (would_block ∷ answers) = NoSendError answers
NoSendError (failed error ∷ answers) = ⊥

pub unsent_none : (n : ℕ) (bytes : List ℕ) → length bytes - n ≡ 0 → drop n bytes ≡ []
unsent_none zero [] h = refl
unsent_none zero (x ∷ bytes) h = absurd (omega (arith, h))
unsent_none (suc n) [] h = refl
unsent_none (suc n) (x ∷ bytes) h = unsent_none n bytes (omega (arith, h))

take-le : (n : ℕ) (xs : List ℕ) → length (take n xs) ≤ length xs
take-le zero xs = omega arith
take-le (suc n) [] = omega arith
take-le (suc n) (x ∷ xs) = omega (arith, take-le n xs)

drop-length-take : (n : ℕ) (xs : List ℕ) → drop (length (take n xs)) xs ≡ drop n xs
drop-length-take zero xs = refl
drop-length-take (suc n) [] = refl
drop-length-take (suc n) (x ∷ xs) = drop-length-take n xs

-- What the loop sent is the front of what was left.
pub send_loop-front :
    (answers : List Sent) (left : List ℕ)
    → (send_loop answers left).0 ++ drop (length (send_loop answers left).0) left ≡ left
unfolding send_loop
send_loop-front [] left = refl
send_loop-front (would_block ∷ answers) left = refl
send_loop-front (failed error ∷ answers) left = refl
send_loop-front (taken n ∷ answers) [] = refl
send_loop-front (taken n ∷ answers) (x ∷ xs) =
    let left : List ℕ = x ∷ xs in
    let rest : List ℕ = (send_loop answers (drop n (x ∷ xs))).0 in
    let d : drop (length (take n (x ∷ xs) ++ rest)) (x ∷ xs)
        ≡ drop (length rest) (drop n (x ∷ xs)) =
      ap (λ m. drop m (x ∷ xs)) (length-append (take n (x ∷ xs)) rest)
      ∙ drop-add (length (take n (x ∷ xs))) (length rest) (x ∷ xs)
      ∙ ap (drop (length rest)) (drop-length-take n (x ∷ xs)) in
    ap (λ t. (take n (x ∷ xs) ++ rest) ++ t) d
    ∙ append_assoc (take n (x ∷ xs)) rest (drop (length rest) (drop n (x ∷ xs)))
    ∙ ap (λ t. take n (x ∷ xs) ++ t) (send_loop-front answers (drop n (x ∷ xs)))
    ∙ take-append-drop n (x ∷ xs)

pub send_loop-fine :
    (answers : List Sent) (left : List ℕ) → NoSendError answers → (send_loop answers left).1 ≡ true
unfolding send_loop
send_loop-fine [] left h = refl
send_loop-fine (would_block ∷ answers) left h = refl
send_loop-fine (failed error ∷ answers) left h = absurd h
send_loop-fine (taken n ∷ answers) left h = ground (arith, send_loop-fine answers (drop n left) h)

-- What the step of the sending loop leaves in the buffer.
pub unsent-transfer_send :
    (now : ℕ) (answers : List Sent) (l : Link)
    → unsent (transfer_send now answers l).0.self
      ≡ drop (length (send_loop answers (unsent l.self)).0) (unsent l.self)
unfolding transfer_send
unsent-transfer_send now answers l =
    let sent : List ℕ = (send_loop answers (unsent l.self)).0 in
    elim (Bool-cases (leb (length (unsent l.self)) (length sent))) [
      | inl e ↦ rw e (sym (unsent_none (length sent) (unsent l.self) (ground (arith, e))))
      | inr e ↦ rw e (drop-add l.self.sent_pos (length sent) l.self.buffer)
    ]

pub transfer_send-forward :
    (now : ℕ) (answers : List Sent) (l : Link)
    → l.partner.outgoing ++ unsent l.self ≡ l.self.incoming
    → let t = (transfer_send now answers l).0 in
      t.partner.outgoing ++ unsent t.self ≡ t.self.incoming
unfolding transfer_send
transfer_send-forward now answers l h =
    let sent : List ℕ = (send_loop answers (unsent l.self)).0 in
    let e = unsent-transfer_send now answers l in
    ap (λ t. (l.partner.outgoing ++ sent) ++ t) e
    ∙ append_assoc l.partner.outgoing sent (drop (length sent) (unsent l.self))
    ∙ ap (λ t. l.partner.outgoing ++ t) (send_loop-front answers (unsent l.self))
    ∙ h
