-- ===== src/Udp/Task/Sending.antt =====
-- Which datagrams reach the upstream, and in which order: src/ProxyLaneHook/UdpProxyTask.cpp.
use proxy_lane.Udp.Pending.Order.{enqueue_room}
use proxy_lane.Common.{
  ◌≤◌, ◌+◌, ◌<◌, Bool, false, ◌∙◌, ℕ, suc, ◌≡◌, refl, Option, none, some, List, [], ◌∷◌, ◌++◌,
  append_assoc, arith, if◌then◌else◌, length, sub32,
}
use proxy_lane.Udp.Pending as Pending
use proxy_lane.Udp.Pending.{Packet, Queue, expired}
use proxy_lane.Common.{append_assoc, append-nil, Bool, true}
use proxy_lane.Udp.Task.{
  taken, would_block, failed, Sent, nothing_pending, Env, Task, close_task,
  schedule_server_reconnect,
}
use proxy_lane.Udp.Task.Handlers.{
  queue_datagram, sent_or_queued, forward_upstream_datagram, forward_client_datagram, restart,
  server_created, wake_server_association, on_server_writable, association_failed,
  flush_pending_replies, expire_and_flush, restart_failed, send_loop, reconnect_after, send_pending,
}

-- The packets that have not expired.
abbrev pub fresh : {T : Type 0} → ℕ → List (Packet T) → List (Packet T)
fresh now [] = []
fresh now (p ∷ ps) = if expired now p then fresh now ps else p ∷ fresh now ps

expire_front-fresh :
    {T : Type 0}
    → (ps : List (Packet T)) (bytes now : ℕ)
    → fresh now (Pending.expire_front ps bytes now).packets ≡ fresh now ps
unfolding Pending.expire_front
expire_front-fresh [] bytes now = refl
expire_front-fresh (p ∷ ps) bytes now =
    ground (arith, expire_front-fresh ps (sub32 bytes (length p.payload)) now)

expire-fresh :
    {T : Type 0}
    → (q : Queue T) (now : ℕ) → fresh now (Pending.expire q now).packets ≡ fresh now q.packets
unfolding Pending.expire
expire-fresh q now = expire_front-fresh q.packets q.pending_bytes now

fresh-append :
    {T : Type 0}
    → (now : ℕ) (ps : List (Packet T)) (p : Packet T) → expired now p ≡ false
    → fresh now (ps ++ p ∷ []) ≡ fresh now ps ++ p ∷ []
fresh-append now [] p h = ground arith
fresh-append now (q ∷ ps) p h = ground (arith, fresh-append now ps p h)

abbrev pub packet_of : {T : Type 0} → ℕ → T → List ℕ → Packet T
packet_of now target bytes = record { target = target; payload = bytes; queued_at = now }

-- There is room for the datagram behind those that wait.
abbrev pub HasRoom : {T : Type 0} → Queue T → List ℕ → Type 0
HasRoom q bytes =
    (length q.packets < Pending.max_packets) × (q.pending_bytes + length bytes ≤ Pending.max_bytes)

module _ {T R : Type 0} where
  -- What was sent and then what is still to be sent.
  abbrev pub traffic : ℕ → Task T R → List (Packet T)
  traffic now t = t.sent ++ fresh now t.pending.packets

  send_loop-fresh :
      (env : Env T R) (n : ℕ) (ps : List (Packet T)) (bytes : ℕ)
      → let r = send_loop env n ps bytes in r.1 ++ fresh env.now r.0.packets ≡ fresh env.now ps
  unfolding send_loop
  send_loop-fresh env n [] bytes = refl
  send_loop-fresh env n (p ∷ ps) bytes = ground (
    arith,
    send_loop-fresh env n ps (sub32 bytes (length p.payload)),
    send_loop-fresh env (suc n) ps (sub32 bytes (length p.payload)),
  )

  -- The task's traffic and the reserve of what is to be sent.
  record Same (now : ℕ) (t t' : Task T R) : Type 0 where
    same : traffic now t' ≡ traffic now t

  schedule-Same :
      (now error : ℕ) (t : Task T R) → Same now t (schedule_server_reconnect now error t)
  unfolding schedule_server_reconnect
  schedule-Same now error t = ground arith

  close_task-Same : (now : ℕ) (t : Task T R) → Same now t (close_task t)
  unfolding close_task
  close_task-Same now t = ground arith

  restart_failed-Same : (now error : ℕ) (t : Task T R) → Same now t (restart_failed now error t)
  unfolding restart_failed close_task
  restart_failed-Same now error t = ground arith

  association_failed-Same :
      (now error : ℕ) (t : Task T R) → Same now t (association_failed now error t)
  unfolding association_failed schedule_server_reconnect close_task
  association_failed-Same now error t = ground arith

  expire_and_flush-Same : (env : Env T R) (t : Task T R) → Same env.now t (expire_and_flush env t)
  unfolding expire_and_flush flush_pending_replies
  expire_and_flush-Same env t = ground (arith, expire-fresh t.pending env.now)

  reconnect_after-Same :
      (now : ℕ) (error : Option ℕ) (t : Task T R) → Same now t (reconnect_after now error t)
  reconnect_after-Same now none t = ground arith
  reconnect_after-Same now (some e) t = schedule-Same now e t

  send_pending-Same : (env : Env T R) (t : Task T R) → Same env.now t (send_pending env t)
  unfolding send_pending flush_pending_replies
  send_pending-Same env t =
      let looped = send_loop env 0 t.pending.packets t.pending.pending_bytes in
      ground (
        arith,
        reconnect_after-Same env.now looped.2
            (record t { pending = looped.0; sent = t.sent ++ looped.1 }),
        append_assoc t.sent looped.1 (fresh env.now looped.0.packets),
        send_loop-fresh env 0 t.pending.packets t.pending.pending_bytes,
      )

  server_created-Same :
      (now : ℕ) (has_handle : Bool) (t : Task T R) → Same now t (server_created has_handle t)
  unfolding server_created
  server_created-Same now has_handle t = ground arith

  trans_Same : (now : ℕ) (a b c : Task T R) → Same now a b → Same now b c → Same now a c
  trans_Same now a b c x y = record { same = y.same ∙ x.same }

  restart-Same : (env : Env T R) (t : Task T R) → Same env.now t (restart env t)
  unfolding restart
  restart-Same env t = grind (arith, restart_failed-Same, server_created-Same, send_pending-Same)

  writable-Same : (env : Env T R) (t : Task T R) → Same env.now t (on_server_writable env t)
  unfolding on_server_writable
  writable-Same env t =
      let s = expire_and_flush-Same env t in
      let t' = expire_and_flush env t in
      ground (
        arith,
        s,
        trans_Same env.now t t' (restart env t') s (restart-Same env t'),
        trans_Same env.now t t' (send_pending env t') s (send_pending-Same env t'),
      )

  -- OnServerWritable, restart of the association included, neither loses, repeats nor reorders a
  -- datagram that has not expired, whatever the socket answers to each SendTo: those that were
  -- sent before and those still to be sent are afterwards the same, in the same order.
  pub on_server_writable-traffic :
      (env : Env T R) (t : Task T R)
      → traffic env.now (on_server_writable env t) ≡ traffic env.now t
  on_server_writable-traffic env t = (writable-Same env t).same

  wake-Same : (env : Env T R) (t : Task T R) → Same env.now t (wake_server_association env t)
  unfolding wake_server_association
  wake-Same env t = grind (arith, association_failed-Same, server_created-Same, writable-Same)

  record Added (now : ℕ) (p : Packet T) (t : Task T R) (r : Task T R × Bool) : Type 0 where
    accepted : r.1 ≡ true
    added : traffic now r.0 ≡ traffic now t ++ p ∷ []

  queue_datagram-Added :
      (now : ℕ) (target : T) (bytes : List ℕ) (t : Task T R)
      → HasRoom t.pending bytes
      → Added now (packet_of now target bytes) t (queue_datagram now target bytes t)
  unfolding queue_datagram
  queue_datagram-Added now target bytes t h = ground (
    arith,
    enqueue_room t.pending (packet_of now target bytes) h.0 h.1,
    fresh-append now t.pending.packets (packet_of now target bytes),
    append_assoc t.sent (fresh now t.pending.packets) (packet_of now target bytes ∷ []),
  )

  schedule-pending :
      (now error : ℕ) (t : Task T R) → (schedule_server_reconnect now error t).pending ≡ t.pending
  unfolding schedule_server_reconnect
  schedule-pending now error t = ground arith

  sent_or_queued-Added :
      (now : ℕ) (target : T) (bytes : List ℕ) (s : Sent) (t : Task T R)
      → HasRoom t.pending bytes
      → nothing_pending t.pending ≡ true
      → Added now (packet_of now target bytes) t (sent_or_queued now target bytes s t)
  unfolding sent_or_queued
  sent_or_queued-Added now target bytes taken t h e =
      ground (arith, append-nil t.sent, append-nil (t.sent ++ packet_of now target bytes ∷ []))
  sent_or_queued-Added now target bytes would_block t h e =
      queue_datagram-Added now target bytes t h
  sent_or_queued-Added now target bytes (failed error) t h e =
      let t' = schedule_server_reconnect now error t in
      ground (
        arith,
        schedule-pending now error t,
        schedule-Same now error t,
        queue_datagram-Added now target bytes t' (rw (schedule-pending now error t) h),
      )

  forward_upstream-Added :
      (env : Env T R) (target : T) (bytes : List ℕ) (t : Task T R)
      → HasRoom t.pending bytes
      → Added env.now
          (packet_of env.now target bytes)
          t
          (forward_upstream_datagram env target bytes t)
  unfolding forward_upstream_datagram
  forward_upstream-Added env target bytes t h = ground (
    arith,
    queue_datagram-Added env.now target bytes t h,
    wake-Same env (queue_datagram env.now target bytes t).0,
    sent_or_queued-Added env.now target bytes (env.send_to 0 (packet_of env.now target bytes)) t h,
  )

  -- In every state a client's datagram is accepted where there is room for it, and joins what was
  -- sent and what is still to be sent exactly once, as the last one: also the one that wakes the
  -- task, and also where a connection or a SendTo fails.
  pub forward_client_datagram-traffic :
      (env : Env T R) (target : T) (bytes : List ℕ) (t : Task T R)
      → HasRoom t.pending bytes
      → let r = forward_client_datagram env target bytes t in
        (r.1 ≡ true)
        × (traffic env.now r.0 ≡ traffic env.now t ++ packet_of env.now target bytes ∷ [])
  unfolding forward_client_datagram
  forward_client_datagram-traffic env target bytes t h =
      let a = forward_upstream-Added env target bytes (record t { last_activity = env.now }) h in
      (a.accepted, a.added)
