-- ===== src/Udp/Task/Invariant.antt =====
-- What every handler of the task in src/ProxyLaneHook/UdpProxyTask.cpp keeps.
use proxy_lane.Common.{
  ℕ, suc, ◌≤◌, ◌≡◌, refl, ◌≢◌, Bool, true, false, Option, none, some, List, [], ◌∷◌, arith, length,
  sub32,
}
use proxy_lane.Udp.Pending as Pending
use proxy_lane.Udp.Pending.{Packet, Queue}
use proxy_lane.Udp.Pending.Accounting as Accounting
use proxy_lane.Udp.Pending.Accounting.{total, enqueue-IsValid, expire-IsValid, flush-IsValid}
use proxy_lane.Udp.Task.{
  UpstreamState, route_reserved, associating, ready, reconnect_wait, dormant, closing, Server,
  no_server, Env, Task, first_delay, max_delay, is_closing, is_ready, should_activate_upstream,
  close_task, schedule_server_reconnect,
}
use proxy_lane.Udp.Task.Handlers.{
  association_failed, on_peer_closed, flush_pending_replies, expire_and_flush, server_created,
  restart_failed, send_loop, reconnect_after, send_pending, restart, on_server_writable,
  on_server_ready, enter_server_dormant, on_maintenance_timer, wake_server_association,
}

-- A reserved or dormant task has no server and nothing to send; one that associates or is ready
-- has a server.
abbrev pub Fits : {T : Type 0} → UpstreamState → Server → List (Packet T) → Type 0
Fits route_reserved s ps = (s ≡ no_server) × (ps ≡ [])
Fits dormant s ps = (s ≡ no_server) × (ps ≡ [])
Fits associating s ps = s ≢ no_server
Fits ready s ps = s ≢ no_server
Fits reconnect_wait s ps = Unit {0}
Fits closing s ps = Unit {0}

expire-empty :
    {T : Type 0} → (q : Queue T) (now : ℕ) → q.packets ≡ [] → (Pending.expire q now).packets ≡ []
unfolding Pending.expire Pending.expire_front
expire-empty q now e = rw e refl

pub refused-empty :
    {T : Type 0}
    → (q : Queue T) (p : Packet T) → (Pending.enqueue q p).1 ≡ false
    → q.packets ≡ []
    → (Pending.enqueue q p).0.packets ≡ []
unfolding Pending.enqueue Pending.evict
refused-empty q p r e = ground arith

module _ {T R : Type 0} where
  -- The queues' counts and bounds, and the bounds of the delay.
  pub record IsSound (t : Task T R) : Type 0 where
    pub queued : Accounting.IsValid t.pending
    pub replies : Accounting.IsValid t.pending_replies
    pub patient : first_delay ≤ t.server_reconnect_delay
    pub bounded : t.server_reconnect_delay ≤ max_delay

  pub record IsValid (t : Task T R) : Type 0 where
    pub sound : IsSound t
    pub fits : Fits t.upstream_state t.server t.pending.packets

  send_loop-IsValid :
      (env : Env T R) (n : ℕ) (ps : List (Packet T)) (bytes : ℕ)
      → bytes ≡ total ps
      → bytes ≤ Pending.max_bytes
      → length ps ≤ Pending.max_packets
      → Accounting.IsValid (send_loop env n ps bytes).0
  unfolding send_loop
  send_loop-IsValid env n [] bytes c b l = record { counted = c; few = l; small = b }
  send_loop-IsValid env n (p ∷ ps) bytes c b l = ground (
    arith,
    send_loop-IsValid env n ps (sub32 bytes (length p.payload)),
    send_loop-IsValid env (suc n) ps (sub32 bytes (length p.payload)),
  )

  close_task-IsValid : (t : Task T R) → IsSound t → IsValid (close_task t)
  unfolding close_task Pending.empty
  close_task-IsValid t v = ground arith

  pub schedule-IsValid :
      (now error : ℕ) (t : Task T R)
      → should_activate_upstream t.upstream_state ≡ false
      → is_closing t.upstream_state ≡ false
      → IsSound t
      → IsValid (schedule_server_reconnect now error t)
  unfolding schedule_server_reconnect
  schedule-IsValid now error t a c v = ground arith

  association_failed-IsValid :
      (now error : ℕ) (t : Task T R)
      → should_activate_upstream t.upstream_state ≡ false
      → is_closing t.upstream_state ≡ false
      → IsSound t
      → IsValid (association_failed now error t)
  unfolding association_failed
  association_failed-IsValid now error t a c v =
      grind (arith, schedule-IsValid now error, close_task-IsValid)

  pub on_peer_closed-IsValid :
      (now error : ℕ) (from_server : Bool) (t : Task T R)
      → IsValid t
      → IsValid (on_peer_closed now from_server error t)
  unfolding on_peer_closed
  on_peer_closed-IsValid now error from_server t v =
      ground (arith, association_failed-IsValid now error t, close_task-IsValid t)

  pub flush_replies-IsValid :
      (env : Env T R) (wanted : Packet R → Bool) (t : Task T R)
      → IsValid t
      → IsValid (flush_pending_replies env wanted t)
  unfolding flush_pending_replies
  flush_replies-IsValid env wanted t v = ground (
    arith,
    flush-IsValid env.route_open wanted env.route_takes env.now t.pending_replies v.sound.replies,
  )

  expire_and_flush-IsValid :
      (env : Env T R) (t : Task T R) → IsValid t → IsValid (expire_and_flush env t)
  unfolding expire_and_flush
  expire_and_flush-IsValid env t v =
      flush_replies-IsValid env (λ p. true) _
        (ground (arith, expire-IsValid t.pending env.now, expire-empty t.pending env.now))

  server_created-IsValid :
      (has_handle : Bool) (t : Task T R) → IsSound t → IsValid (server_created has_handle t)
  unfolding server_created
  server_created-IsValid has_handle t v = ground arith

  restart_failed-IsValid :
      (now error : ℕ) (t : Task T R) → IsSound t → IsValid (restart_failed now error t)
  unfolding restart_failed
  restart_failed-IsValid now error t v = grind (arith, close_task-IsValid)

  reconnect_after-IsValid :
      (now : ℕ) (error : Option ℕ) (t : Task T R)
      → is_ready t.upstream_state ≡ true
      → IsValid t
      → IsValid (reconnect_after now error t)
  reconnect_after-IsValid now none t r v = v
  reconnect_after-IsValid now (some e) t r v =
      schedule-IsValid now e t (ground arith) (ground arith) v.sound

  send_pending-IsValid : (env : Env T R) (t : Task T R) → IsValid t → IsValid (send_pending env t)
  unfolding send_pending
  send_pending-IsValid env t v = grind (
    arith,
    send_loop-IsValid env 0 t.pending.packets t.pending.pending_bytes,
    reconnect_after-IsValid,
    flush_replies-IsValid,
  )

  restart-IsValid : (env : Env T R) (t : Task T R) → IsSound t → IsValid (restart env t)
  unfolding restart
  restart-IsValid env t v =
      grind (arith, restart_failed-IsValid, server_created-IsValid, send_pending-IsValid)

  pub on_server_writable-IsValid :
      (env : Env T R) (t : Task T R) → IsValid t → IsValid (on_server_writable env t)
  unfolding on_server_writable
  on_server_writable-IsValid env t v =
      let v' = expire_and_flush-IsValid env t v in
      ground (
        arith,
        restart-IsValid env (expire_and_flush env t) v'.sound,
        send_pending-IsValid env (expire_and_flush env t) v',
      )

  pub on_server_ready-IsValid :
      (env : Env T R) (t : Task T R) → IsValid t → IsValid (on_server_ready env t)
  unfolding on_server_ready
  on_server_ready-IsValid env t v = grind (arith, on_server_writable-IsValid env)

  enter_dormant-IsValid : (t : Task T R) → IsValid t → IsValid (enter_server_dormant t)
  unfolding enter_server_dormant
  enter_dormant-IsValid t v = ground arith

  pub on_maintenance_timer-IsValid :
      (env : Env T R) (t : Task T R) → IsValid t → IsValid (on_maintenance_timer env t)
  unfolding on_maintenance_timer
  on_maintenance_timer-IsValid env t v =
      grind (
        arith,
        expire_and_flush-IsValid env t,
        enter_dormant-IsValid,
        on_server_writable-IsValid env,
      )

  -- Here the server is missing while the task associates.
  pub wake-IsValid :
      (env : Env T R) (t : Task T R)
      → IsSound t
      → should_activate_upstream t.upstream_state ≡ true
      → IsValid (wake_server_association env t)
  unfolding wake_server_association
  wake-IsValid env t v a = grind (
    arith,
    association_failed-IsValid env.now,
    server_created-IsValid,
    on_server_writable-IsValid env,
  )
