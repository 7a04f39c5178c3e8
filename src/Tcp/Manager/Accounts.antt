-- ===== src/Tcp/Manager/Accounts.antt =====
-- The list of the TCP tasks against the calls of OnAddTask and OnDelTask, in CProxyTCPTaskMgr of
-- src/ProxyLaneHook/ProxyTaskMgr.cpp.
use proxy_lane.Common.{
  none, some, Option, ◌||◌, refl, append-nil, arith, ℕ, ◌≡◌, inl, inr, Bool, true, false, List, [],
  ◌∷◌, ◌++◌, append_assoc, Bool-cases,
}
use mathlib.Core.List.Perm
use mathlib.Core.List.{map-append, append-nil, map, Perm, perm_middle}
use proxy_lane.Tcp.Manager.{
  Info, is_ended, Link, admit, is_finished, complete_task, set_task_info, kill_timers, new_task_mgr,
  select_task, task_timer, Task, TaskMgr, Sockets, nothing, infos, on_new_task, sweep, swept,
  remove_all_tasks, prepare_reconnect, complete_reconnect, on_timer_per_task, on_timer_alive,
}

-- The calls of the manager; the answers are those of the sockets and of TestTaskByPid.
pub data Operation : Type 0 where
  new_task : ℕ → Sockets → ℕ → Info → Operation
  remove_all : Operation
  prepare : Operation
  complete : Bool → Operation
  timer_per_task : ℕ → Operation
  timer_alive : (ℕ → ℕ → Bool) → Operation

-- The tasks and the reports of their ends are, in some order, the reports of their starts; while a
-- task is there both timers run.
pub record IsAccounted (m : TaskMgr) : Type 0 where
  pub balance : Perm m.added (m.deleted ++ infos m.tasks)
  pub ticking : nothing m.tasks ≡ false → (m.timer_per_task ≡ true) × (m.timer_alive ≡ true)

ticking-new : (b timer : Bool) → (b ≡ false → timer ≡ true) → (b || timer) ≡ true
ticking-new true timer h = refl
ticking-new false timer h = h refl

unfoldable pub apply : Operation → TaskMgr → TaskMgr
unfolding on_new_task remove_all_tasks prepare_reconnect complete_reconnect on_timer_per_task
    on_timer_alive
apply (new_task now s address info) m = (on_new_task now s address info m).0
apply remove_all m = remove_all_tasks m
apply prepare m = (prepare_reconnect m).0
apply (complete disconnect) m = complete_reconnect disconnect m
apply (timer_per_task now) m = on_timer_per_task now m
apply (timer_alive test) m = on_timer_alive test m

unfoldable pub run : List Operation → TaskMgr → TaskMgr
unfolding apply
run [] m = m
run (o ∷ operations) m = run operations (apply o m)

-- A sweep neither loses a task nor doubles one.
sweep-Perm :
    (drops : Task → Bool) (step : Task → Task) (tasks : List Task)
    → ((t : Task) → (step t).info ≡ t.info)
    → Perm (infos tasks) (infos (sweep drops step tasks).1 ++ infos (sweep drops step tasks).0)
unfolding sweep
sweep-Perm drops step [] h = Perm.refl []
sweep-Perm drops step (t ∷ tasks) h = elim (Bool-cases (drops t)) [
  | inl e ↦ rw e (Perm.cons t.info (sweep-Perm drops step tasks h))
  | inr e ↦
      rw (e, h t)
        (Perm.trans (Perm.cons t.info (sweep-Perm drops step tasks h)) (
          Perm.symm
            (perm_middle (infos (sweep drops step tasks).1) (infos (sweep drops step tasks).0))))
]

swept-balance :
    (drops : Task → Bool) (step : Task → Task) (m : TaskMgr)
    → ((t : Task) → (step t).info ≡ t.info)
    → Perm m.added (m.deleted ++ infos m.tasks)
    → Perm m.added ((swept drops step m).deleted ++ infos (swept drops step m).tasks)
swept-balance drops step m h p =
    let gone = infos (sweep drops step m.tasks).1 in
    let left = infos (sweep drops step m.tasks).0 in
    rw (append_assoc m.deleted gone left)
      (Perm.trans p (Perm.append_left m.deleted (sweep-Perm drops step m.tasks h)))

-- A task that stays was there before.
sweep-something :
    (drops : Task → Bool) (step : Task → Task) (tasks : List Task)
    → nothing (sweep drops step tasks).0 ≡ false
    → nothing tasks ≡ false
unfolding sweep
sweep-something drops step [] h = h
sweep-something drops step (t ∷ tasks) h = refl

swept-IsAccounted :
    (drops : Task → Bool) (step : Task → Task) (m : TaskMgr)
    → ((t : Task) → (step t).info ≡ t.info)
    → IsAccounted m
    → IsAccounted (swept drops step m)
swept-IsAccounted drops step m h v = record {
  balance = swept-balance drops step m h v.balance;
  ticking = λ n. v.ticking (sweep-something drops step m.tasks n);
}

kill_timers-IsAccounted : (m : TaskMgr) → IsAccounted m → IsAccounted (kill_timers m)
kill_timers-IsAccounted m v = elim (Bool-cases (nothing m.tasks)) [
  | inl e ↦ rw e (record { balance = v.balance; ticking = λ n. absurd (ground (arith, n, e)) })
  | inr e ↦ rw e v
]

task_timer-info : (now : ℕ) (t : Task) → (task_timer now t).info ≡ t.info
unfolding task_timer
task_timer-info now t = refl

infos-map :
    (step : Task → Task) (tasks : List Task)
    → ((t : Task) → (step t).info ≡ t.info)
    → infos (map step tasks) ≡ infos tasks
infos-map step [] h = refl
infos-map step (t ∷ tasks) h = ground (arith, h t, infos-map step tasks h)

nothing-map :
    (step : Task → Task) (tasks : List Task)
    → nothing (map step tasks) ≡ false
    → nothing tasks ≡ false
nothing-map step [] h = h
nothing-map step (t ∷ tasks) h = refl

-- A step that keeps what is reported of a task, on each of them.
map-IsAccounted :
    (step : Task → Task) (m : TaskMgr)
    → ((t : Task) → (step t).info ≡ t.info)
    → IsAccounted m
    → IsAccounted (record m { tasks = map step m.tasks })
map-IsAccounted step m h v = record {
  balance = rw (infos-map step m.tasks h) v.balance;
  ticking = λ n. v.ticking (nothing-map step m.tasks n);
}

admit-IsAccounted :
    (address : ℕ) (info : Info) (m : TaskMgr) (o : Option Link)
    → IsAccounted m
    → IsAccounted (admit address info m o).0
unfolding admit
admit-IsAccounted address info m none v = v
admit-IsAccounted address info m (some link) v = record {
  balance =
      rw
        (
          map-append (λ (t : Task). t.info) m.tasks
              (record {
                address = address;
                info = info;
                link = link;
                reconnect_selected = false;
                reconnect_pending = false;
              }
                ∷ []),
          ← append_assoc m.deleted (infos m.tasks) (info ∷ []),
        )
        (Perm.append_right (info ∷ []) v.balance);
  ticking = λ n. (
    ticking-new (nothing m.tasks) m.timer_per_task (λ e. (v.ticking e).0),
    ticking-new (nothing m.tasks) m.timer_alive (λ e. (v.ticking e).1),
  );
}

apply-IsAccounted : (o : Operation) (m : TaskMgr) → IsAccounted m → IsAccounted (apply o m)
unfolding apply select_task complete_task
apply-IsAccounted (new_task now s address info) m v =
    admit-IsAccounted address info m (set_task_info now info.client info.proxy s).1 v
apply-IsAccounted remove_all m v = record {
  balance = rw (append-nil (m.deleted ++ infos m.tasks)) v.balance;
  ticking = λ n. absurd (ground (arith, n));
}
apply-IsAccounted prepare m v = map-IsAccounted select_task m (λ t. refl) v
apply-IsAccounted (complete disconnect) m v =
    map-IsAccounted (complete_task disconnect) m (λ t. refl) v
apply-IsAccounted (timer_per_task now) m v =
    kill_timers-IsAccounted (swept (is_finished now) (task_timer now) m)
      (swept-IsAccounted (is_finished now) (task_timer now) m (task_timer-info now) v)
apply-IsAccounted (timer_alive test) m v =
    swept-IsAccounted (is_ended test) (λ t. t) m (λ t. refl) v

run-IsAccounted :
    (operations : List Operation) (m : TaskMgr) → IsAccounted m → IsAccounted (run operations m)
unfolding run
run-IsAccounted [] m v = v
run-IsAccounted (o ∷ operations) m v =
    run-IsAccounted operations (apply o m) (apply-IsAccounted o m v)

-- After any calls of a new manager each task that was reported as added is either in the list or
-- was reported as deleted, as often; and while there is a task, both timers run.
pub run-new_task_mgr-IsAccounted :
    (operations : List Operation) → IsAccounted (run operations new_task_mgr)
unfolding new_task_mgr
run-new_task_mgr-IsAccounted operations =
    run-IsAccounted operations new_task_mgr
      (record { balance = Perm.refl []; ticking = λ n. absurd (ground (arith, n)) })
