-- ===== src/Tcp/Manager.antt =====
-- The TCP tasks and their manager: src/ProxyLaneHook/TcpProxyTask.cpp, ConnectProxy of PRCTcpPeer.cpp
-- and CProxyTCPTaskMgr of ProxyTaskMgr.cpp. A task keeps the client and the proxy, by
-- which `added` and `deleted` list the calls of OnAddTask and OnDelTask. The MITM bridge is off.
pub mod Accounts
pub mod Reconnect
mod Tests
use proxy_lane.Common.{
  ℕ, ◌+◌, Bool, true, false, not, ◌&&◌, ◌||◌, Option, none, some, List, [], ◌∷◌, ◌++◌, map, ◌==◌,
  if◌then◌else◌,
}
use proxy_lane.Tcp.Peer.{Link, flip, new_peer, close_socket}
use proxy_lane.Prc.{
  PrcClient, ProxyInfo, has_domain_name, has_proxy_destination, get_proxy_destination, is_noproxy,
  get_proxy_type,
}
use proxy_lane.SockAddr.{SockAddr, af_inet, af_inet6, is_ipv6}
use proxy_lane.Tcp.Peer.Handlers.{connecting, on_timer}
use proxy_lane.Tcp.Peer.Runs.{new_link}

-- IProxyLog::ConnectionStage.
pub data Stage : Type 0 where
  stage_allocate stage_transport stage_socket stage_connect stage_attach : Stage

-- The argument of Connect: a name and a port, or an address.
pub data Endpoint : Type 0 where
  by_name : List ℕ → ℕ → Endpoint
  by_address : SockAddr → Endpoint

-- What AddProxyLayer, Create of a family, AsyncSelect, Connect (with its error WSAEWOULDBLOCK) and
-- Attach answer.
pub record Sockets : Type 0 where
  pub layer_added : Bool
  pub created : ℕ → Bool
  pub selected : Bool
  pub connected : Endpoint → Bool
  pub would_block : Bool
  pub attached : Bool

unfoldable pub connects_by_name : PrcClient → Bool
unfolding has_proxy_destination
connects_by_name c = has_domain_name c && not (has_proxy_destination c)

unfoldable pub transport_family : PrcClient → ProxyInfo → ℕ
unfolding connects_by_name get_proxy_destination
transport_family c p =
    if is_noproxy (get_proxy_type p.proxy_type)
      && not (connects_by_name c)
      && is_ipv6 (get_proxy_destination c)
    then af_inet6
    else af_inet

unfoldable pub endpoint : PrcClient → Endpoint
unfolding connects_by_name get_proxy_destination
endpoint c =
    if connects_by_name c
    then by_name c.domain_name c.dst_addr.port
    else by_address (get_proxy_destination c)

-- The stage that was reached, and whether it was passed.
unfoldable pub connect_proxy : PrcClient → ProxyInfo → Sockets → Stage × Bool
unfolding transport_family endpoint
connect_proxy c p s =
    if not s.layer_added
    then (stage_transport, false)
    else if not (s.created (transport_family c p)) || not s.selected
    then (stage_socket, false)
    else if not (s.connected (endpoint c)) && not s.would_block
    then (stage_connect, false)
    else (stage_connect, true)

-- The server's peer and the client's, or nothing where both are deleted again.
unfoldable pub set_task_info : ℕ → PrcClient → ProxyInfo → Sockets → Stage × Option Link
unfolding connect_proxy new_link
set_task_info now c p s =
    let reached = connect_proxy c p s in
    if not reached.1
    then (reached.0, none)
    else if not s.attached
    then (stage_attach, none)
    else (stage_attach, some (new_link now))

-- m_PRCClient and m_ProxyInfo of a task.
pub record Info : Type 0 where
  pub client : PrcClient
  pub proxy : ProxyInfo

-- `address` stands for the pointer.
pub record Task : Type 0 where
  pub address : ℕ
  pub info : Info
  pub link : Link
  pub reconnect_selected : Bool
  pub reconnect_pending : Bool

pub record TaskMgr : Type 0 where
  pub tasks : List Task
  pub timer_per_task : Bool
  pub timer_alive : Bool
  pub added : List Info
  pub deleted : List Info

abbrev pub is_delete_pending : Task → Bool
is_delete_pending t = t.link.delete_pending

unfoldable pub new_task_mgr : TaskMgr
new_task_mgr = record {
  tasks = [];
  timer_per_task = false;
  timer_alive = false;
  added = [];
  deleted = [];
}

abbrev pub nothing : List Task → Bool
nothing [] = true
nothing (t ∷ tasks) = false

abbrev pub infos : List Task → List Info
infos tasks = map (λ (t : Task). t.info) tasks

abbrev pub kill_timers : TaskMgr → TaskMgr
kill_timers m =
    if nothing m.tasks then record m { timer_per_task = false; timer_alive = false } else m

-- OnNewTask behind SetTaskInfo.
unfoldable pub admit : ℕ → Info → TaskMgr → Option Link → TaskMgr × Bool
admit address info m none = (m, false)
admit address info m (some link) =
    let t : Task = record {
      address = address;
      info = info;
      link = link;
      reconnect_selected = false;
      reconnect_pending = false;
    } in
    (
      record m {
        tasks = m.tasks ++ t ∷ [];
        added = m.added ++ info ∷ [];
        timer_per_task = nothing m.tasks || m.timer_per_task;
        timer_alive = nothing m.tasks || m.timer_alive;
      },
      true,
    )

-- OnNewTask, with the answers for SetTaskInfo and the address of the new task.
unfoldable pub on_new_task : ℕ → Sockets → ℕ → Info → TaskMgr → TaskMgr × Bool
unfolding set_task_info admit
on_new_task now s address info m =
    admit address info m (set_task_info now info.client info.proxy s).1

-- A loop over the tasks that deletes some: the tasks that stay, each after the step, and the
-- deleted ones.
unfoldable pub sweep : (Task → Bool) → (Task → Task) → List Task → List Task × List Task
sweep drops step [] = ([], [])
sweep drops step (t ∷ tasks) =
    let rest = sweep drops step tasks in
    if drops t then (rest.0, t ∷ rest.1) else (step t ∷ rest.0, rest.1)

abbrev pub swept : (Task → Bool) → (Task → Task) → TaskMgr → TaskMgr
swept drops step m = record m {
  tasks = (sweep drops step m.tasks).0;
  deleted = m.deleted ++ infos (sweep drops step m.tasks).1;
}

-- OnDeleteTask: `remove` takes out every equal pointer.
unfoldable pub on_delete_task : Task → TaskMgr → TaskMgr
on_delete_task task m = kill_timers (record m {
  tasks = (sweep (λ t. t.address == task.address) (λ t. t) m.tasks).0;
  deleted = m.deleted ++ task.info ∷ [];
})

-- RemoveAllTasks; the timers go on.
unfoldable pub remove_all_tasks : TaskMgr → TaskMgr
remove_all_tasks m = record m { tasks = []; deleted = m.deleted ++ infos m.tasks }

unfoldable pub select_task : Task → Task
select_task t = record t {
  reconnect_selected = not (is_delete_pending t) && not t.reconnect_pending;
}

unfoldable pub count_selected : List Task → ℕ
count_selected [] = 0
count_selected (t ∷ tasks) = (if t.reconnect_selected then 1 else 0) + count_selected tasks

unfoldable pub prepare_reconnect : TaskMgr → TaskMgr × ℕ
unfolding select_task count_selected
prepare_reconnect m =
    let tasks = map select_task m.tasks in (record m { tasks = tasks }, count_selected tasks)

unfoldable pub complete_task : Bool → Task → Task
complete_task disconnect t = record t {
  reconnect_pending = t.reconnect_selected && disconnect || t.reconnect_pending;
  reconnect_selected = false;
}

unfoldable pub complete_reconnect : Bool → TaskMgr → TaskMgr
unfolding complete_task
complete_reconnect disconnect m = record m { tasks = map (complete_task disconnect) m.tasks }

-- The peers' timers, the client's first, where the socket is open.
unfoldable pub task_timer : ℕ → Task → Task
unfolding on_timer
task_timer now t =
    let client = if t.link.partner.is_open then flip (on_timer now (flip t.link)) else t.link in
    record t { link = if client.self.is_open then on_timer now client else client }

abbrev pub is_finished : ℕ → Task → Bool
is_finished now t = t.reconnect_pending || is_delete_pending (task_timer now t)

-- TIMER_TCPPERTASK.
unfoldable pub on_timer_per_task : ℕ → TaskMgr → TaskMgr
unfolding sweep task_timer
on_timer_per_task now m = kill_timers (swept (is_finished now) (task_timer now) m)

abbrev pub is_ended : (ℕ → ℕ → Bool) → Task → Bool
is_ended test_task_by_pid t =
    not (test_task_by_pid t.info.client.pid t.info.client.process_create_time)

-- TIMER_IS_TASK_ALIVE, with TestTaskByPid.
unfoldable pub on_timer_alive : (ℕ → ℕ → Bool) → TaskMgr → TaskMgr
unfolding sweep
on_timer_alive test_task_by_pid m = swept (is_ended test_task_by_pid) (λ t. t) m
