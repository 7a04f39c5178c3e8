-- ===== src/Udp/Manager/Closing.antt =====
-- How tasks end under CProxyUDPTaskMgr of src/ProxyLaneHook/ProxyTaskMgr.cpp.
use proxy_lane.Common.{
  ℕ, ◌+◌, ◌≡◌, refl, ap, inl, inr, Bool, true, false, ◌&&◌, some, List, [], ◌∷◌, map, arith,
  if◌then◌else◌, All, Bool-cases,
}
use proxy_lane.Prc.{PrcClient}
use proxy_lane.Udp.Routes.{Route}
use proxy_lane.Udp.Task.{Env, Task, close_task, close_route}
use proxy_lane.Udp.Manager.{
  clear_task_port_states, Ports, Managed, Manager, is_open, is_closed, sweep, same_socket, any,
}
use proxy_lane.Udp.Manager.Ending.{
  kill_tasks, kill_loop, kill_tasks, close_managed, tick, on_task_timer,
}
use proxy_lane.Udp.Manager.Ports.{kill_loop-ports, released, less, sweep-ports, kill_loop-ports}

closed_routes : (rs : List Route) → is_open (map close_route rs) ≡ false
closed_routes [] = refl
closed_routes (r ∷ rs) = closed_routes rs

module _ {T R : Type 0} where
  is_closed-close_task : (t : Task T R) → is_closed (close_task t) ≡ true
  unfolding is_closed close_task
  is_closed-close_task t = ground (arith, closed_routes t.routes)

  abbrev pub killed : PrcClient → Managed T R → Managed T R
  killed c t = if same_socket t.client c then close_managed t else t

  abbrev pub count : PrcClient → List (Managed T R) → ℕ
  count c [] = 0
  count c (t ∷ ts) = (if same_socket t.client c then 1 else 0) + count c ts

  abbrev pub IsDown : PrcClient → Managed T R → Type 0
  IsDown c t = same_socket t.client c ≡ true → is_closed t.task ≡ true

  killed-IsDown : (c : PrcClient) (t : Managed T R) → IsDown c (killed c t)
  killed-IsDown c t = elim (Bool-cases (same_socket t.client c)) [
    | inl b ↦ rw b (λ _. is_closed-close_task t.task)
    | inr b ↦ rw b (λ q. absurd (ground (arith, b, q)))
  ]

  kill_loop_lem :
      (c : PrcClient) (ts : List (Managed T R)) (ports : Ports)
      → ((kill_loop c ts ports).0 ≡ map (killed c) ts) × ((kill_loop c ts ports).2 ≡ count c ts)
  unfolding kill_loop
  kill_loop_lem c [] ports = (refl, refl)
  kill_loop_lem c (t ∷ ts) ports =
      let cleared =
        if same_socket t.client c then clear_task_port_states t.task.routes ports else ports in
      let (tasks, n) = kill_loop_lem c ts cleared in
      (ap (◌∷◌ (killed c t)) tasks, ap (◌+◌ (if same_socket t.client c then 1 else 0)) n)

  map-IsDown : (c : PrcClient) (ts : List (Managed T R)) → All (IsDown c) (map (killed c) ts)
  map-IsDown c [] = tt
  map-IsDown c (t ∷ ts) = (killed-IsDown c t, map-IsDown c ts)

  -- Every task of the socket that the application has closed is closed, and no other one is touched;
  -- the port states of its routes are cleared, and no others; the result is the number of these
  -- tasks.
  pub kill_tasks_lem :
      (c : PrcClient) (m : Manager T R)
      → let r = kill_tasks (some c) m in
        (r.0.tasks ≡ map (killed c) m.tasks)
        × All (IsDown c) r.0.tasks
        × ((port : ℕ)
            → r.0.port_states port
              ≡ less (released (λ t. same_socket t.client c) port m.tasks) m.port_states port)
        × (r.1 ≡ count c m.tasks)
  unfolding kill_tasks
  kill_tasks_lem c m =
      let (tasks, n) = kill_loop_lem c m.tasks m.port_states in
      (tasks, rw tasks (map-IsDown c m.tasks), kill_loop-ports c m.tasks m.port_states, n)

  -- What a sweep leaves is not gone.
  sweep-left :
      (gone : Managed T R → Bool) (ts : List (Managed T R)) (ports : Ports)
      → All (λ t. gone t ≡ false) (sweep gone ts ports).0
  unfolding sweep
  sweep-left gone [] ports = tt
  sweep-left gone (t ∷ ts) ports = elim (Bool-cases (gone t)) [
    | inl b ↦ rw b (sweep-left gone ts _)
    | inr b ↦ rw b (b, sweep-left gone ts _)
  ]

  -- After the maintenance timer no closed task is left, the port states of those that were are
  -- cleared and no other, and the timers run on only where a task is left.
  pub on_task_timer_lem :
      (env : Managed T R → Env T R) (m : Manager T R)
      → let r = on_task_timer env m in
        All (λ t. is_closed t.task ≡ false) r.tasks
        × (r.timers ≡ (m.timers && any r.tasks))
        × ((port : ℕ)
            → r.port_states port
              ≡ less
                  (released (λ t. is_closed t.task) port (tick env m.tasks m.capability).0)
                  m.port_states
                  port)
  unfolding on_task_timer
  on_task_timer_lem env m =
      let ticked = (tick env m.tasks m.capability).0 in
      (
        sweep-left (λ t. is_closed t.task) ticked m.port_states,
        refl,
        sweep-ports (λ t. is_closed t.task) ticked m.port_states,
      )
