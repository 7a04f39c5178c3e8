-- ===== src/Tcp/Manager/Tests.antt =====
-- A manager with two tasks, one of which is refused a socket, and a reconnection.
use proxy_lane.Common.{ℕ, ◌≡◌, refl, true, false, ◌&&◌, List, [], ◌∷◌, ◌++◌, ◌==◌, codes}
use proxy_lane.SockAddr.{SockAddr, af_inet, af_inet6}
use proxy_lane.Prc.{get_proxy_type}
use proxy_lane.Tcp.Peer.Runs.{new_link}
use proxy_lane.Tcp.Manager.{
  Info, Sockets, Task, TaskMgr, new_task_mgr, infos, on_new_task, connect_proxy, stage_socket,
  stage_connect, prepare_reconnect, complete_reconnect, on_timer_per_task, sweep, is_finished,
  task_timer,
}
use proxy_lane.Tcp.Manager.Accounts.{
  Operation, new_task, timer_alive, run, IsAccounted, run-new_task_mgr-IsAccounted,
}
use proxy_lane.Tcp.Manager.Reconnect.{reconnect_lem}

-- An application's connection to [::1]:80 in process `pid`, through the proxy of type `text`.
abbrev connection : ℕ → List ℕ → Info
connection pid text =
    let address : SockAddr = record {
      family = af_inet6;
      port = 80;
      sin_addr = [];
      sin6_addr = 0 ∷ 1 ∷ [];
      scope_id = 0;
    } in
    record {
      client = record {
        pid = pid;
        tid = 1;
        process_create_time = 5;
        socket_generation = 0;
        socket_type = 1;
        socket = 9;
        accepted = 0;
        domain_name = [];
        src_addr = address;
        dst_addr = address;
        proxy_dst_addr = address;
        routing_flags = 0;
        ua_flag = 0;
        udp_addr = address;
      };
      proxy = record {
        item_name = [];
        proxy_type = text;
        proxy_host = [];
        proxy_port = 1080;
        proxy_user = [];
        proxy_pass = [];
        transport = 0;
        transport_psk = [];
      };
    }

abbrev direct : Info
direct = connection 40 []

abbrev proxied : Info
proxied = connection 41 (codes "SOCKS5")

-- Only the sockets of IPv4 can be made.
abbrev fine : Sockets
fine = record {
  layer_added = true;
  created = λ family. family == af_inet;
  selected = true;
  connected = λ e. false;
  would_block = true;
  attached = true;
}

-- A direct connection takes the family of its destination, one through a proxy IPv4.
refused : connect_proxy direct.client direct.proxy fine ≡ (stage_socket, false)
unfolding connect_proxy get_proxy_type
refused = refl

let_through : connect_proxy proxied.client proxied.proxy fine ≡ (stage_connect, true)
unfolding connect_proxy get_proxy_type
let_through = refl

abbrev operations : List Operation
operations =
    new_task 0 fine 1 proxied
    ∷ new_task 5 fine 2 direct
    ∷ new_task 9 fine 3 (connection 42 (codes "HTTP"))
    ∷ timer_alive (λ pid time. pid == 41 && time == 5)
    ∷ []

left : infos (run operations new_task_mgr).tasks ≡ proxied ∷ []
unfolding run new_task_mgr get_proxy_type
left = refl

run-new_task_mgr-IsAccounted_example : IsAccounted (run operations new_task_mgr)
run-new_task_mgr-IsAccounted_example = run-new_task_mgr-IsAccounted operations

one : TaskMgr
one = (on_new_task 0 fine 1 proxied new_task_mgr).0

abbrev newcomer : Task
newcomer = record {
  address = 4;
  info = direct;
  link = new_link 3;
  reconnect_selected = false;
  reconnect_pending = false;
}

reconnect_lem_example :
    let prepared = (prepare_reconnect one).0 in
    let joined = record prepared { tasks = prepared.tasks ++ newcomer ∷ [] } in
    let r = on_timer_per_task 20 (complete_reconnect true joined) in
    let kept = sweep (is_finished 20) (task_timer 20) (newcomer ∷ []) in
    (r.tasks ≡ kept.0) × (r.deleted ≡ one.deleted ++ (infos one.tasks ++ infos kept.1))
reconnect_lem_example = reconnect_lem 20 one (newcomer ∷ []) (refl, tt)
