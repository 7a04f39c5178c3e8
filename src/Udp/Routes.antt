-- ===== src/Udp/Routes.antt =====
-- The routes of one UDP task: AddRoute, HasRoute, CanAcceptRoute and the choice of a route in
-- ForwardServerDatagram, of src/ProxyLaneHook/UdpProxyTask.cpp. A route's peer is `open` when it is
-- there and has a socket. Capture and the QUIC bridge are not modelled.
pub mod Reply
mod Tests
use proxy_lane.Common.{
  ℕ, ◌+◌, Bool, true, false, not, ◌&&◌, ◌||◌, Option, none, some, List, [], ◌∷◌, ◌++◌, ◌==◌,
  if◌then◌else◌,
}
use proxy_lane.SockAddr.{SockAddr, In6, is_ipv6, get_dword_ip, same_address, zero16}
use proxy_lane.Prc.{PrcClient, has_domain_name, has_proxy_destination, get_proxy_destination}
use proxy_lane.Udp.Destination.{Destination, is_same_destination, can_share_association}

pub record Route : Type 0 where
  pub client : PrcClient
  pub is_open : Bool
  pub application_endpoint : Option SockAddr

-- A route that has a socket and whose upstream port is the reply's.
abbrev pub eligible : SockAddr → Route → Bool
eligible source r = r.is_open && (get_proxy_destination r.client).port == source.port

abbrev pub by_domain : SockAddr → Route → Bool
by_domain source r = eligible source r && has_domain_name r.client

module _ (ws : In6) where
  -- GetUdpDestination.
  unfoldable pub udp_destination : PrcClient → Destination
  udp_destination c = record {
    has_domain = has_domain_name c;
    domain = some c.domain_name;
    family = c.dst_addr.family;
    ipv4 = get_dword_ip ws c.dst_addr;
    ipv6 = if is_ipv6 c.dst_addr then c.dst_addr.sin6_addr else zero16;
    port = c.dst_addr.port;
  }

  abbrev pub same_route : PrcClient → Route → Bool
  same_route c r = is_same_destination (udp_destination r.client) (udp_destination c)

  unfoldable pub has_route : List Route → PrcClient → Bool
  has_route [] c = false
  has_route (r ∷ rs) c = same_route c r || has_route rs c

  unfoldable pub can_accept_route : List Route → PrcClient → Bool
  can_accept_route [] c = true
  can_accept_route (r ∷ rs) c =
      not (has_proxy_destination r.client || has_proxy_destination c)
      && can_share_association (udp_destination r.client) (udp_destination c)
      && can_accept_route rs c

  -- The first loop of AddRoute: the route of this destination takes the new client and keeps its
  -- local address, if it is open, and is removed otherwise. The flag says that it was reused.
  unfoldable pub reuse_route : List Route → PrcClient → List Route × Bool
  reuse_route [] c = ([], false)
  reuse_route (r ∷ rs) c =
      let rest = reuse_route rs c in
      if same_route c r
      then if r.is_open
        then (record r { client = record c { udp_addr = r.client.udp_addr } } ∷ rs, true)
        else (rs, false)
      else (r ∷ rest.0, rest.1)

  -- `local` is the address of the new socket, `none` if it could not be created.
  unfoldable pub add_route : List Route → PrcClient → Option SockAddr → List Route × Bool
  add_route routes c local =
      let reused = reuse_route routes c in
      if reused.1 then (reused.0, true) else elim local [
        | none ↦ (reused.0, false)
        | some a ↦ (
          reused.0
              ++ record {
                client = record c { udp_addr = a };
                is_open = true;
                application_endpoint = none;
              }
                ∷ [],
          true,
        )
      ]

  abbrev pub exact : SockAddr → Route → Bool
  exact source r =
      eligible source r
      && (not (has_domain_name r.client) && same_address ws (get_proxy_destination r.client) source)

  -- The loop: the route found, the last domain candidate and the number of them.
  unfoldable pub select_loop :
      SockAddr → List Route → Option Route → ℕ → Option Route × Option Route × ℕ
  select_loop source [] candidate count = (none, candidate, count)
  select_loop source (r ∷ rs) candidate count =
      let rest =
        select_loop source rs (if by_domain source r then some r else candidate)
          (if by_domain source r then count + 1 else count) in
      if exact source r then (some r, candidate, count) else rest

  only_route : List Route → Option Route
  only_route [] = none
  only_route (r ∷ []) = if r.is_open then some r else none
  only_route (r ∷ s ∷ rs) = none

  after_loop : List Route → Option Route × Option Route × ℕ → Option Route
  unfolding only_route
  after_loop routes (some r, candidate, count) = some r
  after_loop routes (none, candidate, count) =
      if count == 1 then candidate else if count == 0 then only_route routes else none

  -- The route that a reply from `source` goes to; without one the reply is dropped.
  unfoldable pub select_route : List Route → SockAddr → Option Route
  unfolding after_loop
  select_route routes source = after_loop routes (select_loop source routes none 0)
