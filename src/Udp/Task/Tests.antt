-- ===== src/Udp/Task/Tests.antt =====
-- A task of a SOCKS5 profile, from its first datagram on.
use proxy_lane.Common.{ℕ, zero, suc, ◌≡◌, refl, true, false, List, [], ◌∷◌, ◌++◌, arith}
use proxy_lane.Udp.Capability.{TaskMgr, Profile, reset, proxytype_socks5, proxytype_noproxy}
use proxy_lane.Udp.Pending.{empty, expire, expire_front, flush, flush_loop, enqueue, evict}
use proxy_lane.Udp.Task.{
  ready, closing, open_server, taken, would_block, connected, Env, Task, has_socket, new_task,
  close_task,
}
use proxy_lane.Udp.Pending.{enqueue, evict}
use proxy_lane.Udp.Task.Handlers.{
  forward_upstream_datagram, queue_datagram, wake_server_association, server_created, send_pending,
  send_loop, flush_pending_replies, expire_and_flush, server_created, send_loop, send_pending,
  on_server_writable, wake_server_association, queue_datagram, forward_upstream_datagram,
  forward_client_datagram,
}
use proxy_lane.Udp.Task.Events.{
  Event, server_ready, peer_closed, timer, client_datagram, server_datagram, run,
}
use proxy_lane.Udp.Task.Invariant.{IsValid}
use proxy_lane.Udp.Task.Runs.{run-new_task-IsValid}
use proxy_lane.Udp.Task.Life.{close_task_lasts}
use proxy_lane.Udp.Task.Sending.{
  traffic, packet_of, HasRoom, on_server_writable-traffic, forward_client_datagram-traffic,
}

abbrev socks5_profile : Profile
socks5_profile = record { proxy_type = proxytype_socks5; key = 1 ∷ [] }

abbrev direct_profile : Profile
direct_profile = record { proxy_type = proxytype_noproxy; key = 2 ∷ [] }

abbrev mgr : TaskMgr
mgr = record { capability_key = 1 ∷ []; capability = reset }

-- The connection succeeds, and SendTo takes one datagram and then blocks.
abbrev env_at : ℕ → Env ℕ ℕ
env_at tick = record {
  now = tick;
  connect_proxy = connected true;
  send_to = λ n p. elim n [ zero ↦ taken | suc m ↦ would_block ];
  route_open = λ p. true;
  route_takes = λ p. true;
}

abbrev fresh_task : Task ℕ ℕ
fresh_task = new_task socks5_profile mgr 100

abbrev direct_task : Task ℕ ℕ
direct_task = new_task direct_profile mgr 100

abbrev bytes : List ℕ
bytes = 1 ∷ 2 ∷ 3 ∷ []

abbrev day : List (Event ℕ ℕ)
day =
    client_datagram (env_at 200) 7 bytes
    ∷ server_ready (env_at 250)
    ∷ server_datagram 300 false 4 bytes
    ∷ peer_closed 400 true 10054
    ∷ timer (env_at 700)
    ∷ []

run-new_task-IsValid_example : IsValid (run fresh_task day)
run-new_task-IsValid_example = run-new_task-IsValid socks5_profile mgr 100 day (ground arith)

on_server_writable-traffic_example :
    traffic 250 (on_server_writable (env_at 250) (run fresh_task day))
    ≡ traffic 250 (run fresh_task day)
on_server_writable-traffic_example = on_server_writable-traffic (env_at 250) (run fresh_task day)

fresh_task-HasRoom : HasRoom (fresh_task.pending) bytes
unfolding new_task empty
fresh_task-HasRoom = (omega arith, omega arith)

forward_client_datagram-traffic_example :
    let r = forward_client_datagram (env_at 200) 7 bytes fresh_task in
    (r.1 ≡ true) × (traffic 200 r.0 ≡ traffic 200 fresh_task ++ packet_of 200 7 bytes ∷ [])
forward_client_datagram-traffic_example =
    forward_client_datagram-traffic (env_at 200) 7 bytes fresh_task fresh_task-HasRoom

close_task_lasts_example :
    let t' = run (close_task fresh_task) day in
    (t'.upstream_state ≡ closing) × (has_socket t'.server ≡ false) × (t'.sent ≡ fresh_task.sent)
close_task_lasts_example = close_task_lasts fresh_task day

-- A direct task that is ready and has been idle since tick 100.
abbrev idle_task : Task ℕ ℕ
idle_task = record direct_task { upstream_state = ready; server = open_server }

-- The first datagram of a direct task starts the upstream and is sent at once.
first_datagram_sent :
    (forward_client_datagram (env_at 200) 7 bytes direct_task).0.sent ≡ packet_of 200 7 bytes ∷ []
unfolding forward_client_datagram forward_upstream_datagram queue_datagram wake_server_association
    server_created on_server_writable expire_and_flush flush_pending_replies send_pending send_loop
    enqueue evict expire expire_front flush flush_loop new_task empty
first_datagram_sent = refl
