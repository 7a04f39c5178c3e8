-- ===== src/Udp/Task/Life.antt =====
-- When a UDP task closes and when it goes dormant: src/ProxyLaneHook/UdpProxyTask.cpp.
use proxy_lane.Common.{
  ◌≤◌, ◌≡◌, ◌≢◌, Bool, true, false, Option, none, some, List, [], ◌∷◌, arith, sub32,
}
use proxy_lane.Udp.Pending.{expire, flush}
use proxy_lane.Udp.Task.{
  no_server, schedule_server_reconnect, taken, would_block, failed, Sent, dormant, closing,
  no_server, Sent, taken, would_block, failed, Task, idle_timeout, has_socket, close_task,
  schedule_server_reconnect,
}
use proxy_lane.Common.{Bool, Option, ◌≢◌, some, none}
use proxy_lane.Udp.Task.Handlers.{
  restart, send_loop, server_created, restart_failed, association_failed, reconnect_after,
  send_pending, wake_server_association, sent_or_queued, expire_and_flush, enter_server_dormant,
  association_failed, on_peer_closed, flush_pending_replies, expire_and_flush, server_created,
  restart_failed, send_loop, reconnect_after, send_pending, restart, on_server_writable,
  on_server_ready, enter_server_dormant, on_maintenance_timer, wake_server_association,
  queue_datagram, sent_or_queued, forward_upstream_datagram, forward_client_datagram, queue_reply,
  forward_server_datagram,
}
use proxy_lane.Udp.Task.Events.{
  Event, server_ready, server_writable, peer_closed, timer, client_datagram, server_datagram,
  route_writable, manager_changed, step, run,
}

module _ {T R : Type 0} where
  record IsClosed (t t' : Task T R) : Type 0 where
    closed : t'.upstream_state ≡ closing
    silent : has_socket t'.server ≡ false
    kept : t'.sent ≡ t.sent

  step-IsClosed : (t₀ t : Task T R) (e : Event T R) → IsClosed t₀ t → IsClosed t₀ (step t e)
  unfolding step
  step-IsClosed t₀ t (server_ready env) c = unfold on_server_ready in ground arith
  step-IsClosed t₀ t (server_writable env) c = unfold on_server_writable in ground arith
  step-IsClosed t₀ t (peer_closed now from_server error) c =
      unfold on_peer_closed close_task in ground arith
  step-IsClosed t₀ t (timer env) c = unfold on_maintenance_timer in ground arith
  step-IsClosed t₀ t (client_datagram env target bytes) c =
      unfold forward_client_datagram forward_upstream_datagram queue_datagram in ground arith
  step-IsClosed t₀ t (server_datagram now sends route bytes) c =
      unfold forward_server_datagram queue_reply in ground arith
  step-IsClosed t₀ t (route_writable env wanted) c = unfold flush_pending_replies in ground arith
  step-IsClosed t₀ t (manager_changed m) c = ground arith

  run-IsClosed : (t₀ t : Task T R) (es : List (Event T R)) → IsClosed t₀ t → IsClosed t₀ (run t es)
  unfolding run
  run-IsClosed t₀ t [] c = c
  run-IsClosed t₀ t (e ∷ es) c = run-IsClosed t₀ (step t e) es (step-IsClosed t₀ t e c)

  close_task-IsClosed : (t : Task T R) → IsClosed t (close_task t)
  unfolding close_task
  close_task-IsClosed t = ground arith

  -- A closed task stays closed whatever events reach it: no later event reopens its server or
  -- sends a datagram.
  pub close_task_lasts :
      (t : Task T R) (es : List (Event T R))
      → let t' = run (close_task t) es in
        (t'.upstream_state ≡ closing) × (has_socket t'.server ≡ false) × (t'.sent ≡ t.sent)
  close_task_lasts t es =
      let c = run-IsClosed t (close_task t) es (close_task-IsClosed t) in
      (c.closed, c.silent, c.kept)

  -- What the timer asks of a task that it puts to sleep.
  abbrev pub IsIdle : Task T R → Event T R → Type 0
  IsIdle t (timer env) =
      (idle_timeout ≤ sub32 env.now t.last_activity)
      × ((expire t.pending env.now).packets ≡ [])
      × ((flush env.route_open (λ p. true) env.route_takes env.now t.pending_replies).0.packets
          ≡ [])
  IsIdle t e = ⊥

  record Awake (t : Task T R) : Type 0 where
    awake : t.upstream_state ≢ dormant
