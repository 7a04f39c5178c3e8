-- ===== src/Udp/Manager/Tests.antt =====
-- A manager with one task of a SOCKS5 profile, and the sockets that ask it for routes.
use proxy_lane.Prc.{has_proxy_destination}
use proxy_lane.Udp.Task.{new_task}
use proxy_lane.Common.{
  ℕ, ◌≡◌, refl, true, false, none, some, List, [], ◌∷◌, ◌++◌, map, ◌==◌, if◌then◌else◌, get_or,
  take, All, bytes_eq, codes,
}
use proxy_lane.SockAddr.{SockAddr, In6, af_inet, zero4, zero16}
use proxy_lane.Prc.{has_proxy_destination, PrcClient, ProxyInfo}
use proxy_lane.Udp.Capability.{reset}
use proxy_lane.Udp.Task.{Env, taken, connected, new_task}
use proxy_lane.Udp.Manager.{same_socket, Managed, Manager, no_port_state, profile_of}
use proxy_lane.Udp.Manager.Placing.{on_new_task}
use proxy_lane.Udp.Manager.Ending.{kill_tasks}
use proxy_lane.Udp.Manager.Ports.{less, released}
use proxy_lane.Udp.Manager.Apart.{RoutesApart, on_new_task-RoutesApart}
use proxy_lane.Udp.Manager.Closing.{killed, IsDown, kill_tasks_lem}

abbrev in6 : In6
in6 = record {
  is_v4mapped = λ a. false;
  is_unspecified = λ a. bytes_eq a zero16;
  is_loopback = λ a. bytes_eq a (zero4 ++ zero4 ++ zero4 ++ (0 ∷ 0 ∷ 0 ∷ 1 ∷ []));
  is_multicast = λ a. get_or a 0 0 == 255;
  is_linklocal = λ a. bytes_eq (take 2 a) (254 ∷ 128 ∷ []);
  are_equal = bytes_eq;
}

abbrev at : ℕ → ℕ → SockAddr
at host port = record {
  family = af_inet;
  port = port;
  sin_addr = 192 ∷ 0 ∷ 2 ∷ host ∷ [];
  sin6_addr = zero16;
  scope_id = 0;
}

-- A client of the socket 5 for a destination, with its route's address.
abbrev asks : SockAddr → SockAddr → PrcClient
asks destination route = record {
  pid = 7;
  tid = 8;
  process_create_time = 9;
  socket_generation = 1;
  socket_type = 2;
  socket = 5;
  accepted = 0;
  domain_name = [];
  src_addr = at 1 5000;
  dst_addr = destination;
  proxy_dst_addr = at 0 0;
  routing_flags = 0;
  ua_flag = 0;
  udp_addr = route;
}

abbrev proxy : ProxyInfo
proxy = record {
  item_name = codes "home";
  proxy_type = codes "SOCKS5";
  proxy_host = codes "proxy.example";
  proxy_port = 1080;
  proxy_user = [];
  proxy_pass = [];
  transport = 0;
  transport_psk = [];
}

abbrev key : ProxyInfo → List ℕ
key p = p.proxy_host

abbrev one_task : Manager ℕ ℕ
one_task = record {
  capability = record { capability_key = codes "proxy.example"; capability = reset };
  tasks =
      record {
        client = asks (at 2 443) (at 0 0);
        proxy_info = proxy;
        task =
            record (new_task (profile_of key proxy)
              (record { capability_key = codes "proxy.example"; capability = reset }) 0) {
                routes =
                    record {
                      client = asks (at 2 443) (at 0 6001);
                      is_open = true;
                      application_endpoint = none;
                    }
                    ∷ [];
              };
      }
      ∷ [];
  port_states = λ port.
      if port == 6001
      then record { client_ip = 192 ∷ 0 ∷ 2 ∷ 1 ∷ []; client_port = 5000; proxy_port = 6001 }
      else no_port_state;
  timers = true;
}

abbrev second : PrcClient
second = asks (at 3 53) (at 0 0)

on_new_task-RoutesApart_example :
    All
      (RoutesApart in6)
      (on_new_task in6 key 100 (some (at 0 6002)) (some second) (some proxy) one_task).0.tasks
unfolding has_proxy_destination
on_new_task-RoutesApart_example =
    on_new_task-RoutesApart in6 key 100 (some (at 0 6002)) second proxy one_task
      (((λ _. refl), tt), tt) ((tt, tt), tt)

kill_tasks_lem_example :
    let r = kill_tasks (some second) one_task in
    (r.0.tasks ≡ map (killed second) one_task.tasks)
    × All (IsDown second) r.0.tasks
    × ((port : ℕ)
        → r.0.port_states port
          ≡ less
              (released (λ t. same_socket t.client second) port one_task.tasks)
              one_task.port_states
              port)
    × (r.1 ≡ 1)
kill_tasks_lem_example = kill_tasks_lem second one_task

abbrev env : Managed ℕ ℕ → Env ℕ ℕ
env t = record {
  now = 200;
  connect_proxy = connected true;
  send_to = λ n p. taken;
  route_open = λ p. true;
  route_takes = λ p. true;
}
