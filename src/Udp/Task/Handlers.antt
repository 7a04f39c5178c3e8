-- ===== src/Udp/Task/Handlers.antt =====
-- The handlers of one UDP task, each as a function on the task: src/ProxyLaneHook/UdpProxyTask.cpp.
use proxy_lane.Common.{
  ℕ, suc, ◌*◌, ◌%◌, ◌^◌, Bool, true, false, not, ◌&&◌, ◌||◌, Option, none, some, List, [], ◌∷◌,
  ◌++◌, ltb, ◌==◌, if◌then◌else◌, length, sub32, add32,
}
use proxy_lane.Udp.Capability.{
  proxytype_noproxy, not_before, report_association_failure, report_association_ready,
  is_permanently_unsupported,
}
use proxy_lane.Udp.Pending.{Packet, Queue, enqueue, expire, expired, flush}
use proxy_lane.Udp.Destination.{should_enter_dormant}
use proxy_lane.Udp.Task.{
  Env, Task, Sent, blocked_delay, close_task, first_delay, has_socket, idle_timeout, is_associating,
  is_closing, is_ready, is_waiting, max_delay, nothing_pending, or_refused,
  schedule_server_reconnect, should_activate_upstream, wsaeopnotsupp, associating, ready,
  reconnect_wait, dormant, no_server, closed_server, open_server, taken, would_block, failed,
  refused, connected,
}

module _ {T R : Type 0} where
  -- What OnPeerClosed and WakeServerAssociation do with a failed association.
  unfoldable pub association_failed : ℕ → ℕ → Task T R → Task T R
  association_failed now error t =
      let reported = report_association_failure t.taskmgr t.proxy now (error == wsaeopnotsupp) in
      let t' = record t { taskmgr = reported.0 } in
      let waiting = schedule_server_reconnect now error t' in
      if reported.1
      then if is_permanently_unsupported reported.0
        then close_task t'
        else record waiting { next_server_reconnect = add32 now blocked_delay }
      else waiting

  -- `from_server` says that the peer is the server, not a local route.
  unfoldable pub on_peer_closed : ℕ → Bool → ℕ → Task T R → Task T R
  on_peer_closed now from_server error t =
      if from_server
      then if is_closing t.upstream_state || should_activate_upstream t.upstream_state
        then t
        else association_failed now error t
      else close_task t

  unfoldable pub flush_pending_replies : Env T R → (Packet R → Bool) → Task T R → Task T R
  flush_pending_replies env wanted t = record t {
    pending_replies = (flush env.route_open wanted env.route_takes env.now t.pending_replies).0;
  }

  unfoldable pub expire_and_flush : Env T R → Task T R → Task T R
  expire_and_flush env t =
      flush_pending_replies env (λ p. true) (record t { pending = expire t.pending env.now })

  -- CreateServerPeer, where ConnectProxy gave a peer.
  unfoldable pub server_created : Bool → Task T R → Task T R
  server_created has_handle t =
      let t' = record t { server = if has_handle then open_server else closed_server } in
      if t.proxy.proxy_type == proxytype_noproxy
      then record t' {
        upstream_state = ready;
        server_reconnect_delay = first_delay;
        last_server_error = 0;
      }
      else record t' { upstream_state = associating }

  -- The failure branch of the restart in OnServerWritable.
  unfoldable pub restart_failed : ℕ → ℕ → Task T R → Task T R
  restart_failed now error t =
      let reported = report_association_failure t.taskmgr t.proxy now (error == wsaeopnotsupp) in
      let t' = record t { taskmgr = reported.0 } in
      let delay =
        if ltb (t.server_reconnect_delay * 2 % 2 ^ 32) max_delay
        then t.server_reconnect_delay * 2 % 2 ^ 32
        else max_delay in
      if reported.1
      then if is_permanently_unsupported reported.0 then close_task t' else record t' {
        upstream_state = reconnect_wait;
        next_server_reconnect = add32 now blocked_delay;
      }
      else record t' {
        upstream_state = reconnect_wait;
        server_reconnect_delay = delay;
        next_server_reconnect = add32 now delay;
      }

  -- The send loop from the n-th SendTo: the queue that is left, what was sent, and the error that
  -- ended it other than WSAEWOULDBLOCK.
  unfoldable pub send_loop :
      Env T R → ℕ → List (Packet T) → ℕ → Queue T × List (Packet T) × Option ℕ
  send_loop env n [] bytes = (record { packets = []; pending_bytes = bytes }, [], none)
  send_loop env n (p ∷ ps) bytes =
      let late = expired env.now p in
      let rest = send_loop env (if late then n else suc n) ps (sub32 bytes (length p.payload)) in
      let stay : Queue T = record { packets = p ∷ ps; pending_bytes = bytes } in
      if late then rest else elim (env.send_to n p) [
        | taken ↦ (rest.0, p ∷ rest.1, rest.2)
        | would_block ↦ (stay, [], none)
        | failed error ↦ (stay, [], some error)
      ]

  abbrev pub reconnect_after : ℕ → Option ℕ → Task T R → Task T R
  reconnect_after now none t = t
  reconnect_after now (some error) t = schedule_server_reconnect now error t

  -- The end of OnServerWritable, from the test for UPSTREAM_READY on.
  unfoldable pub send_pending : Env T R → Task T R → Task T R
  send_pending env t =
      let looped = send_loop env 0 t.pending.packets t.pending.pending_bytes in
      if is_ready t.upstream_state && has_socket t.server
      then flush_pending_replies env (λ p. true)
          (reconnect_after env.now looped.2
            (record t { pending = looped.0; sent = t.sent ++ looped.1 }))
      else t

  -- The restart of a lost association, once its time has come.
  unfoldable pub restart : Env T R → Task T R → Task T R
  restart env t = elim env.connect_proxy [
    | refused error ↦ restart_failed env.now (or_refused error) (record t { server = no_server })
    | connected has_handle ↦ send_pending env (server_created has_handle t)
  ]

  unfoldable pub on_server_writable : Env T R → Task T R → Task T R
  on_server_writable env t =
      let t' = expire_and_flush env t in
      if is_closing t.upstream_state
      then t
      else if is_waiting t.upstream_state
      then if not_before env.now t.next_server_reconnect then restart env t' else t'
      else send_pending env t'

  unfoldable pub on_server_ready : Env T R → Task T R → Task T R
  on_server_ready env t =
      if is_associating t.upstream_state
      then on_server_writable env (record t {
        upstream_state = ready;
        taskmgr = report_association_ready t.taskmgr t.proxy;
        server_reconnect_delay = first_delay;
        last_server_error = 0;
      })
      else t

  abbrev pub is_empty : Queue T → Queue R → Bool
  is_empty q r = elim q.packets [
    | [] ↦ elim r.packets [ [] ↦ true | x ∷ xs ↦ false ]
    | x ∷ xs ↦ false
  ]

  unfoldable pub enter_server_dormant : Task T R → Task T R
  enter_server_dormant t =
      if is_closing t.upstream_state
        || should_activate_upstream t.upstream_state
        || not (is_empty t.pending t.pending_replies)
      then t
      else record t {
        upstream_state = dormant;
        server_reconnect_delay = first_delay;
        last_server_error = 0;
        server = no_server;
      }

  unfoldable pub on_maintenance_timer : Env T R → Task T R → Task T R
  on_maintenance_timer env t =
      let t' = expire_and_flush env t in
      if is_closing t.upstream_state
      then t
      else if should_activate_upstream t.upstream_state
      then t'
      else if should_enter_dormant env.now t.last_activity idle_timeout
          (not (is_empty t'.pending t'.pending_replies))
      then enter_server_dormant t'
      else on_server_writable env t'

  unfoldable pub wake_server_association : Env T R → Task T R → Task T R
  wake_server_association env t =
      let t' = record t { upstream_state = associating; server_reconnect_delay = first_delay } in
      if is_closing t.upstream_state || not (should_activate_upstream t.upstream_state)
      then t
      else elim env.connect_proxy [
        | refused error ↦ association_failed env.now (or_refused error) t'
        | connected has_handle ↦
            let created = server_created has_handle t' in
            if is_ready created.upstream_state then on_server_writable env created else created
      ]

  unfoldable pub queue_datagram : ℕ → T → List ℕ → Task T R → Task T R × Bool
  queue_datagram now target bytes t =
      let queued =
        enqueue t.pending (record { target = target; payload = bytes; queued_at = now }) in
      (record t { pending = queued.0 }, queued.1)

  -- What ForwardUpstreamDatagram does with SendTo's answer.
  unfoldable pub sent_or_queued : ℕ → T → List ℕ → Sent → Task T R → Task T R × Bool
  sent_or_queued now target bytes taken t = (
    record t { sent = t.sent ++ record { target = target; payload = bytes; queued_at = now } ∷ [] },
    true,
  )
  sent_or_queued now target bytes would_block t = queue_datagram now target bytes t
  sent_or_queued now target bytes (failed error) t =
      queue_datagram now target bytes (schedule_server_reconnect now error t)

  unfoldable pub forward_upstream_datagram : Env T R → T → List ℕ → Task T R → Task T R × Bool
  forward_upstream_datagram env target bytes t =
      let packet : Packet T = record { target = target; payload = bytes; queued_at = env.now } in
      let queued = queue_datagram env.now target bytes t in
      if should_activate_upstream t.upstream_state
      then if queued.1 then (wake_server_association env queued.0, true) else queued
      else if is_ready t.upstream_state && has_socket t.server && nothing_pending t.pending
      then sent_or_queued env.now target bytes (env.send_to 0 packet) t
      else queued

  -- The part of ForwardClientDatagram without a QUIC bridge.
  unfoldable pub forward_client_datagram : Env T R → T → List ℕ → Task T R → Task T R × Bool
  forward_client_datagram env target bytes t =
      forward_upstream_datagram env target bytes (record t { last_activity = env.now })

  unfoldable pub queue_reply : ℕ → R → List ℕ → Task T R → Task T R × Bool
  queue_reply now route bytes t =
      let queued =
        enqueue t.pending_replies (record { target = route; payload = bytes; queued_at = now }) in
      (record t { pending_replies = queued.0 }, queued.1)

  -- ForwardServerDatagram for the route that was selected, without capture and QUIC bridge; `sends`
  -- says whether the route's SendTo took the whole datagram.
  unfoldable pub forward_server_datagram : ℕ → Bool → R → List ℕ → Task T R → Task T R × Bool
  forward_server_datagram now sends route bytes t =
      let t' = record t { last_activity = now } in
      if sends then (t', true) else queue_reply now route bytes t'
