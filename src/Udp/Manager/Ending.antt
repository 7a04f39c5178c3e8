-- ===== src/Udp/Manager/Ending.antt =====
-- How tasks end, and what a port answers: KillTasks, RemoveAllTasks, OnTimer and GetUDPPortState of
-- CProxyUDPTaskMgr in src/ProxyLaneHook/ProxyTaskMgr.cpp.
use proxy_lane.Common.{
  ℕ, ◌+◌, Bool, true, false, not, ◌&&◌, ◌||◌, Option, none, some, List, [], ◌∷◌, ◌==◌,
  if◌then◌else◌, bytes_eq,
}
use proxy_lane.Prc.{PrcClient}
use proxy_lane.Udp.Capability.{TaskMgr, reset}
use proxy_lane.Udp.Task.{Env, close_task}
use proxy_lane.Udp.Task.Handlers.{on_maintenance_timer}
use proxy_lane.Udp.Manager.{
  Managed, Manager, PortState, Ports, any, clear_task_port_states, is_closed, same_socket, sweep,
}

module _ {T R : Type 0} where
  abbrev pub close_managed : Managed T R → Managed T R
  close_managed t = record t { task = close_task t.task }

  unfoldable pub kill_loop : PrcClient → List (Managed T R) → Ports → List (Managed T R) × Ports × ℕ
  kill_loop c [] ports = ([], ports, 0)
  kill_loop c (t ∷ ts) ports =
      let hit = same_socket t.client c in
      let rest =
        kill_loop c ts (if hit then clear_task_port_states t.task.routes ports else ports) in
      ((if hit then close_managed t else t) ∷ rest.0, rest.1, (if hit then 1 else 0) + rest.2)

  -- The number of tasks that were closed.
  unfoldable pub kill_tasks : Option PrcClient → Manager T R → Manager T R × ℕ
  unfolding kill_loop
  kill_tasks none m = (m, 0)
  kill_tasks (some c) m =
      let killed = kill_loop c m.tasks m.port_states in
      (record m { tasks = killed.0; port_states = killed.1 }, killed.2)

  unfoldable pub remove_all_tasks : Manager T R → Manager T R
  unfolding sweep
  remove_all_tasks m = record m {
    capability = record { capability_key = []; capability = reset };
    tasks = [];
    port_states = (sweep (λ t. true) m.tasks m.port_states).1;
    timers = false;
  }

  -- TIMER_TCPPERTASK: each task sees what the tasks before it have reported.
  unfoldable pub tick :
      (Managed T R → Env T R) → List (Managed T R) → TaskMgr → List (Managed T R) × TaskMgr
  tick env [] capability = ([], capability)
  tick env (t ∷ ts) capability =
      let task = on_maintenance_timer (env t) (record t.task { taskmgr = capability }) in
      let rest = tick env ts task.taskmgr in (record t { task = task } ∷ rest.0, rest.1)

  unfoldable pub on_task_timer : (Managed T R → Env T R) → Manager T R → Manager T R
  unfolding tick sweep
  on_task_timer env m =
      let ticked = tick env m.tasks m.capability in
      let swept = sweep (λ t. is_closed t.task) ticked.0 m.port_states in
      record m {
        capability = ticked.1;
        tasks = swept.0;
        port_states = swept.1;
        timers = m.timers && any swept.0;
      }

  -- TIMER_IS_TASK_ALIVE; `is_alive` is TestTaskByPid.
  unfoldable pub on_alive_timer : (ℕ → ℕ → Bool) → Manager T R → Manager T R
  unfolding sweep
  on_alive_timer is_alive m =
      let swept =
        sweep (λ t. not (is_alive t.client.pid t.client.process_create_time) || is_closed t.task)
          m.tasks m.port_states in
      record m { tasks = swept.0; port_states = swept.1 }

  unfoldable pub get_udp_port_state : Manager T R → PortState → Bool
  get_udp_port_state m asked =
      let state = m.port_states asked.proxy_port in
      if state.proxy_port == 0
      then false
      else bytes_eq state.client_ip asked.client_ip && state.client_port == asked.client_port
