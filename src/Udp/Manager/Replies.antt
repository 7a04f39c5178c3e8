-- ===== src/Udp/Manager/Replies.antt =====
-- From a registration to its replies, across ProxyTaskMgr.cpp and UdpProxyTask.cpp of
-- src/ProxyLaneHook.
use proxy_lane.Common.{ℕ, ◌≡◌, ◌↔◌, ◌⊎◌, true, false, some, List, ◌∷◌, ◌++◌}
use proxy_lane.SockAddr.{SockAddr, In6, af_inet, af_inet6}
use proxy_lane.Prc.{PrcClient, ProxyInfo, has_domain_name, has_proxy_destination}
use proxy_lane.Udp.Routes.{Route, select_route}
use proxy_lane.Udp.Manager.{Managed, Manager, matches_association}

module _ (ws : In6) (are_equal_iff : (x y : List ℕ) → (ws.are_equal x y ≡ true) ↔ (x ≡ y)) where
  -- A client that gives its destination by address, and is not redirected.
  abbrev pub IsDirect : PrcClient → Type 0
  IsDirect c =
      (has_domain_name c ≡ false)
      × (has_proxy_destination c ≡ false)
      × ((c.dst_addr.family ≡ af_inet) ⊎ (c.dst_addr.family ≡ af_inet6))

  -- The task that serves the client, and where it sends a reply of the destination.
  abbrev pub Answered : {T R : Type 0} → PrcClient → ProxyInfo → ℕ → Managed T R → Type 0
  Answered c p port t =
      (matches_association c p t ≡ true)
      × ((r : Route) × (select_route ws t.task.routes c.dst_addr ≡ some r)
          × (r.is_open ≡ true)
          × (r.client.udp_addr.port ≡ port))

  module _ {T R : Type 0} where
    -- It is among the tasks.
    abbrev pub IsAmong : Managed T R → List (Managed T R) → Type 0
    IsAmong t ts =
        (before : List (Managed T R)) × (after : List (Managed T R)) × (ts ≡ before ++ t ∷ after)
