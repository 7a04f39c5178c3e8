-- ===== src/Udp/Routes/Tests.antt =====
-- A task with a route given by address and one given by a domain name.
use proxy_lane.Common.{
  ℕ, ◌≡◌, refl, ◌↔◌, true, none, some, List, [], ◌∷◌, ◌++◌, ◌==◌, get_or, take, bytes_eq,
  bytes_eq_sound, bytes_eq_refl, codes,
}
use proxy_lane.SockAddr.{SockAddr, In6, af_inet, zero4, zero16, get_dword_ip, same_address}
use proxy_lane.Prc.{PrcClient, has_proxy_destination, get_proxy_destination}
use proxy_lane.Udp.Destination.{is_same_destination, can_share_association}
use proxy_lane.Udp.Routes.{Route, udp_destination, select_route}
use proxy_lane.Udp.Routes.Reply.{PairwiseApart, select_route-exact}

abbrev bytes_in6 : In6
bytes_in6 = record {
  is_v4mapped = λ a. bytes_eq (take 12 a) (zero4 ++ zero4 ++ (0 ∷ 0 ∷ 255 ∷ 255 ∷ []));
  is_unspecified = λ a. bytes_eq a zero16;
  is_loopback = λ a. bytes_eq a (zero4 ++ zero4 ++ zero4 ++ (0 ∷ 0 ∷ 0 ∷ 1 ∷ []));
  is_multicast = λ a. get_or a 0 0 == 255;
  is_linklocal = λ a. bytes_eq (take 2 a) (254 ∷ 128 ∷ []);
  are_equal = bytes_eq;
}

bytes_in6_equal : (x y : List ℕ) → (bytes_in6.are_equal x y ≡ true) ↔ (x ≡ y)
bytes_in6_equal x y = (bytes_eq_sound x y, λ e. rw e (bytes_eq_refl y))

abbrev endpoint : ℕ → ℕ → SockAddr
endpoint host port = record {
  family = af_inet;
  port = port;
  sin_addr = 10 ∷ 0 ∷ 0 ∷ host ∷ [];
  sin6_addr = zero16;
  scope_id = 0;
}

abbrev client : List ℕ → SockAddr → PrcClient
client domain destination = record {
  pid = 1;
  tid = 2;
  process_create_time = 3;
  socket_generation = 4;
  socket_type = 2;
  socket = 5;
  accepted = 0;
  domain_name = domain;
  src_addr = endpoint 9 4000;
  dst_addr = destination;
  proxy_dst_addr = endpoint 0 0;
  routing_flags = 0;
  ua_flag = 0;
  udp_addr = endpoint 0 0;
}

abbrev by_address : Route
by_address = record {
  client = client [] (endpoint 1 443);
  is_open = true;
  application_endpoint = none;
}

abbrev by_name : Route
by_name = record {
  client = client (codes "example.org") (endpoint 0 53);
  is_open = true;
  application_endpoint = none;
}

apart : PairwiseApart bytes_in6 (by_address ∷ by_name ∷ [])
unfolding is_same_destination can_share_association has_proxy_destination udp_destination
apart = (((refl, refl, refl, refl), tt), (tt, tt))

select_route-exact_example :
    select_route bytes_in6 (by_address ∷ by_name ∷ []) (endpoint 1 443) ≡ some by_address
select_route-exact_example =
    select_route-exact bytes_in6 bytes_in6_equal (endpoint 1 443) [] by_address (by_name ∷ []) apart
      (unfold get_proxy_destination has_proxy_destination same_address get_dword_ip in refl)
