-- ===== src/Udp/Task/Runs.antt =====
-- The datagrams that pass the task of src/ProxyLaneHook/UdpProxyTask.cpp, and its runs.
use proxy_lane.Common.{◌^◌, ◌<◌, ℕ, ◌≡◌, Bool, true, false, List, [], ◌∷◌, arith, length}
use proxy_lane.Udp.Pending as Pending
use proxy_lane.Udp.Pending.{Packet, Queue}
use proxy_lane.Udp.Pending.Accounting.{enqueue-IsValid}
use proxy_lane.Common.{All}
use proxy_lane.Udp.Task.{
  new_task, taken, would_block, failed, Sent, Env, Task, is_ready, should_activate_upstream,
  schedule_server_reconnect,
}
use proxy_lane.Udp.Task.Events.{
  Event, server_ready, server_writable, peer_closed, timer, client_datagram, server_datagram,
  route_writable, manager_changed, step, run, IsEvent,
}
use proxy_lane.Udp.Capability.{TaskMgr, Profile}
use proxy_lane.Udp.Task.Handlers.{
  queue_reply, forward_server_datagram, sent_or_queued, forward_upstream_datagram,
  forward_client_datagram, queue_datagram, wake_server_association,
}
use proxy_lane.Udp.Task.Invariant.{
  IsSound, IsValid, wake-IsValid, schedule-IsValid, on_server_ready-IsValid,
  on_server_writable-IsValid, on_peer_closed-IsValid, on_maintenance_timer-IsValid,
  flush_replies-IsValid, refused-empty,
}

module _ {T R : Type 0} where
  queue_datagram-IsSound :
      (now : ℕ) (target : T) (bytes : List ℕ) (t : Task T R)
      → length bytes < 2 ^ 31
      → IsSound t
      → IsSound (queue_datagram now target bytes t).0
  unfolding queue_datagram
  queue_datagram-IsSound now target bytes t h v = ground (
    arith,
    enqueue-IsValid t.pending (record { target = target; payload = bytes; queued_at = now }),
  )

  queue_datagram-IsValid :
      (now : ℕ) (target : T) (bytes : List ℕ) (t : Task T R)
      → length bytes < 2 ^ 31
      → should_activate_upstream t.upstream_state ≡ false
      → IsValid t
      → IsValid (queue_datagram now target bytes t).0
  unfolding queue_datagram
  queue_datagram-IsValid now target bytes t h a v = ground (
    arith,
    enqueue-IsValid t.pending (record { target = target; payload = bytes; queued_at = now }),
  )

  wake-queued :
      (env : Env T R) (target : T) (bytes : List ℕ) (t : Task T R)
      → length bytes < 2 ^ 31
      → should_activate_upstream t.upstream_state ≡ true
      → IsSound t
      → IsValid (wake_server_association env (queue_datagram env.now target bytes t).0)
  wake-queued env target bytes t h a v =
      wake-IsValid env _ (queue_datagram-IsSound env.now target bytes t h v)
        (unfold queue_datagram in a)

  queue_datagram-refused :
      (now : ℕ) (target : T) (bytes : List ℕ) (t : Task T R)
      → length bytes < 2 ^ 31
      → (queue_datagram now target bytes t).1 ≡ false
      → IsValid t
      → IsValid (queue_datagram now target bytes t).0
  unfolding queue_datagram
  queue_datagram-refused now target bytes t h r v = ground (
    arith,
    enqueue-IsValid t.pending (record { target = target; payload = bytes; queued_at = now }),
    refused-empty t.pending (record { target = target; payload = bytes; queued_at = now }),
  )

  requeue-IsValid :
      (now error : ℕ) (target : T) (bytes : List ℕ) (t : Task T R)
      → length bytes < 2 ^ 31
      → is_ready t.upstream_state ≡ true
      → IsSound t
      → IsValid (queue_datagram now target bytes (schedule_server_reconnect now error t)).0
  requeue-IsValid now error target bytes t h r v =
      let v' = schedule-IsValid now error t (ground arith) (ground arith) v in
      queue_datagram-IsValid now target bytes _ h (unfold schedule_server_reconnect in ground arith)
        v'

  sent_or_queued-IsValid :
      (now : ℕ) (target : T) (bytes : List ℕ) (s : Sent) (t : Task T R)
      → length bytes < 2 ^ 31
      → is_ready t.upstream_state ≡ true
      → IsValid t
      → IsValid (sent_or_queued now target bytes s t).0
  unfolding sent_or_queued
  sent_or_queued-IsValid now target bytes taken t h r v = ground arith
  sent_or_queued-IsValid now target bytes would_block t h r v =
      queue_datagram-IsValid now target bytes t h (ground arith) v
  sent_or_queued-IsValid now target bytes (failed error) t h r v =
      requeue-IsValid now error target bytes t h r v.sound

  forward_upstream-IsValid :
      (env : Env T R) (target : T) (bytes : List ℕ) (t : Task T R)
      → length bytes < 2 ^ 31
      → IsValid t
      → IsValid (forward_upstream_datagram env target bytes t).0
  unfolding forward_upstream_datagram
  forward_upstream-IsValid env target bytes t h v =
      let packet : Packet T = record { target = target; payload = bytes; queued_at = env.now } in
      ground (
        arith,
        wake-queued env target bytes t h,
        queue_datagram-refused env.now target bytes t h,
        queue_datagram-IsValid env.now target bytes t h,
        sent_or_queued-IsValid env.now target bytes (env.send_to 0 packet) t h,
      )

  pub forward_client_datagram-IsValid :
      (env : Env T R) (target : T) (bytes : List ℕ) (t : Task T R)
      → length bytes < 2 ^ 31
      → IsValid t
      → IsValid (forward_client_datagram env target bytes t).0
  unfolding forward_client_datagram
  forward_client_datagram-IsValid env target bytes t h v =
      forward_upstream-IsValid env target bytes (record t { last_activity = env.now }) h
        (ground arith)

  queue_reply-IsValid :
      (now : ℕ) (route : R) (bytes : List ℕ) (t : Task T R)
      → length bytes < 2 ^ 31
      → IsValid t
      → IsValid (queue_reply now route bytes t).0
  unfolding queue_reply
  queue_reply-IsValid now route bytes t h v = ground (
    arith,
    enqueue-IsValid t.pending_replies (record { target = route; payload = bytes; queued_at = now }),
  )

  forward_server_datagram-IsValid :
      (now : ℕ) (sends : Bool) (route : R) (bytes : List ℕ) (t : Task T R)
      → length bytes < 2 ^ 31
      → IsValid t
      → IsValid (forward_server_datagram now sends route bytes t).0
  unfolding forward_server_datagram
  forward_server_datagram-IsValid now sends route bytes t h v =
      ground (arith, queue_reply-IsValid now route bytes (record t { last_activity = now }) h)

  step-IsValid : (t : Task T R) (e : Event T R) → IsEvent e → IsValid t → IsValid (step t e)
  unfolding step
  step-IsValid t (server_ready env) h v = on_server_ready-IsValid env t v
  step-IsValid t (server_writable env) h v = on_server_writable-IsValid env t v
  step-IsValid t (peer_closed now from_server error) h v =
      on_peer_closed-IsValid now error from_server t v
  step-IsValid t (timer env) h v = on_maintenance_timer-IsValid env t v
  step-IsValid t (client_datagram env target bytes) h v =
      forward_client_datagram-IsValid env target bytes t h v
  step-IsValid t (server_datagram now sends route bytes) h v =
      forward_server_datagram-IsValid now sends route bytes t h v
  step-IsValid t (route_writable env wanted) h v = flush_replies-IsValid env wanted t v
  step-IsValid t (manager_changed m) h v = ground arith

  run-IsValid :
      (t : Task T R) (es : List (Event T R)) → All IsEvent es → IsValid t → IsValid (run t es)
  unfolding run
  run-IsValid t [] h v = v
  run-IsValid t (e ∷ es) h v =
      run-IsValid (step t e) es (ground arith) (step-IsValid t e (ground arith) v)

  new_task-IsValid :
      (p : Profile) (m : TaskMgr) (now : ℕ) → IsValid {T = T} {R = R} (new_task p m now)
  unfolding new_task Pending.empty
  new_task-IsValid p m now = ground arith

  -- Whatever events a new task has met, with payloads of less than 2 GiB: the byte counts of both
  -- queues are exact and within 128 packets and 1 MiB, the reconnect delay is between 250 and
  -- 5000 ms, a reserved or dormant task has no server and nothing to send, and one that
  -- associates or is ready has a server.
  pub run-new_task-IsValid :
      (p : Profile) (m : TaskMgr) (now : ℕ) (es : List (Event T R))
      → All IsEvent es
      → IsValid (run (new_task p m now) es)
  run-new_task-IsValid p m now es h = run-IsValid (new_task p m now) es h (new_task-IsValid p m now)
