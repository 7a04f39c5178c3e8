-- ===== src/Tcp/Manager/Reconnect.antt =====
-- The reconnection of all TCP tasks, CProxyTCPTaskMgr::PrepareReconnect and CompleteReconnect of
-- src/ProxyLaneHook/ProxyTaskMgr.cpp.
use mathlib.Core.List.{map-append}
use proxy_lane.Common.{
  ℕ, ◌≡◌, refl, ap, ◌∙◌, inl, inr, Bool, true, false, List, [], ◌∷◌, ◌++◌, map, arith, All,
  Bool-cases,
}
use proxy_lane.Tcp.Peer.{Link, flip}
use proxy_lane.Tcp.Peer.Handlers.{on_timer}
use proxy_lane.Tcp.Manager.{
  Task, TaskMgr, nothing, infos, sweep, swept, select_task, prepare_reconnect, complete_task,
  complete_reconnect, task_timer, is_delete_pending, is_finished, on_timer_per_task,
}

on_timer-delete_pending : (now : ℕ) (l : Link) → (on_timer now l).delete_pending ≡ l.delete_pending
unfolding on_timer
on_timer-delete_pending now l = ground arith

task_timer-delete_pending :
    (now : ℕ) (t : Task) → is_delete_pending (task_timer now t) ≡ is_delete_pending t
unfolding task_timer
task_timer-delete_pending now t = ground (
  arith,
  on_timer-delete_pending now (flip t.link),
  on_timer-delete_pending now (flip (on_timer now (flip t.link))),
  on_timer-delete_pending now t.link,
)

-- A task that goes through both steps of a reconnection ends at the next timer.
is_finished-complete_task :
    (now : ℕ) (t : Task) → is_finished now (complete_task true (select_task t)) ≡ true
unfolding complete_task select_task
is_finished-complete_task now t =
    ground (arith, task_timer-delete_pending now (complete_task true (select_task t)))

sweep-all :
    (drops : Task → Bool) (step f : Task → Task) (tasks : List Task)
    → ((t : Task) → drops (f t) ≡ true)
    → sweep drops step (map f tasks) ≡ ([], map f tasks)
unfolding sweep
sweep-all drops step f [] h = refl
sweep-all drops step f (t ∷ tasks) h = ground (arith, h t, sweep-all drops step f tasks h)

sweep-append :
    (drops : Task → Bool) (step : Task → Task) (xs ys : List Task)
    → sweep drops step (xs ++ ys) ≡ (
      (sweep drops step xs).0 ++ (sweep drops step ys).0,
      (sweep drops step xs).1 ++ (sweep drops step ys).1,
    )
unfolding sweep
sweep-append drops step [] ys = refl
sweep-append drops step (t ∷ xs) ys = ground (arith, sweep-append drops step xs ys)

complete_task-new :
    (tasks : List Task)
    → All (λ t. t.reconnect_selected ≡ false) tasks
    → map (complete_task true) tasks ≡ tasks
unfolding complete_task
complete_task-new [] h = refl
complete_task-new (t ∷ tasks) h = ground (arith, h, complete_task-new tasks h.1)

map-map : (f g : Task → Task) (tasks : List Task) → map f (map g tasks) ≡ map (λ t. f (g t)) tasks
map-map f g [] = refl
map-map f g (t ∷ tasks) = ap (◌∷◌ (f (g t))) (map-map f g tasks)

infos-reconnected :
    (tasks : List Task)
    → infos (map (λ (t : Task). complete_task true (select_task t)) tasks) ≡ infos tasks
unfolding complete_task select_task
infos-reconnected [] = refl
infos-reconnected (t ∷ tasks) = ap (◌∷◌ t.info) (infos-reconnected tasks)

on_timer_per_task-sweep :
    (now : ℕ) (m : TaskMgr)
    → let r = on_timer_per_task now m in
      let kept = sweep (is_finished now) (task_timer now) m.tasks in
      (r.tasks ≡ kept.0) × (r.deleted ≡ m.deleted ++ infos kept.1)
unfolding on_timer_per_task
on_timer_per_task-sweep now m =
    elim (Bool-cases (nothing (swept (is_finished now) (task_timer now) m).tasks)) [
      | inl e ↦ rw e (refl, refl)
      | inr e ↦ rw e (refl, refl)
    ]

reconnected_tasks :
    (tasks later : List Task)
    → All (λ t. t.reconnect_selected ≡ false) later
    → map (complete_task true) (map select_task tasks ++ later)
      ≡ map (λ (t : Task). complete_task true (select_task t)) tasks ++ later
reconnected_tasks tasks later h =
    map-append (complete_task true) (map select_task tasks) later
    ∙ ap (λ x. x ++ map (complete_task true) later) (map-map (complete_task true) select_task tasks)
    ∙ ap (λ x. map (λ (t : Task). complete_task true (select_task t)) tasks ++ x)
        (complete_task-new later h)

sweep-reconnected :
    (now : ℕ) (tasks later : List Task)
    → let done = map (λ (t : Task). complete_task true (select_task t)) tasks in
      let kept = sweep (is_finished now) (task_timer now) later in
      sweep (is_finished now) (task_timer now) (done ++ later) ≡ (kept.0, done ++ kept.1)
sweep-reconnected now tasks later =
    let f = λ (t : Task). complete_task true (select_task t) in
    let kept = sweep (is_finished now) (task_timer now) later in
    sweep-append (is_finished now) (task_timer now) (map f tasks) later
    ∙ ap (λ (x : List Task × List Task). (x.0 ++ kept.0, x.1 ++ kept.1))
        (sweep-all (is_finished now) (task_timer now) f tasks (is_finished-complete_task now))

-- A reconnection ends every task that was there when it was prepared, also those that were ending
-- anyway: behind the next timer only tasks that came in between are left, as that timer leaves
-- them, and the ends of the others are reported in their order.
pub reconnect_lem :
    (now : ℕ) (m : TaskMgr) (later : List Task)
    → All (λ t. t.reconnect_selected ≡ false) later
    → let prepared = (prepare_reconnect m).0 in
      let joined = record prepared { tasks = prepared.tasks ++ later } in
      let r = on_timer_per_task now (complete_reconnect true joined) in
      let kept = sweep (is_finished now) (task_timer now) later in
      (r.tasks ≡ kept.0) × (r.deleted ≡ m.deleted ++ (infos m.tasks ++ infos kept.1))
unfolding prepare_reconnect complete_reconnect
reconnect_lem now m later h =
    let f = λ (t : Task). complete_task true (select_task t) in
    let kept = sweep (is_finished now) (task_timer now) later in
    let joined : TaskMgr = record m { tasks = map select_task m.tasks ++ later } in
    let t = on_timer_per_task-sweep now (complete_reconnect true joined) in
    let s =
      ap (sweep (is_finished now) (task_timer now)) (reconnected_tasks m.tasks later h)
      ∙ sweep-reconnected now m.tasks later in
    (
      t.0 ∙ ap (λ (x : List Task × List Task). x.0) s,
      t.1
          ∙ ap (λ (x : List Task × List Task). m.deleted ++ infos x.1) s
          ∙ ap (λ x. m.deleted ++ x)
              (map-append (λ (t : Task). t.info) (map f m.tasks) kept.1
                ∙ ap (λ x. x ++ infos kept.1) (infos-reconnected m.tasks)),
    )
