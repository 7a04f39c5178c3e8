-- ===== src/Udp/Destination/Tests.antt =====
-- Three destinations.
use proxy_lane.Common.{ℕ, ◌≡◌, refl, true, false, some, [], ◌∷◌, codes}
use proxy_lane.SockAddr.{af_inet, zero4, zero16}
use proxy_lane.Udp.Destination.{Destination, is_same_destination, can_share_association}

abbrev at : ℕ → ℕ → Destination
at host port = record {
  has_domain = false;
  domain = some [];
  family = af_inet;
  ipv4 = 10 ∷ 0 ∷ 0 ∷ host ∷ [];
  ipv6 = zero16;
  port = port;
}

abbrev named : Destination
named = record {
  has_domain = true;
  domain = some (codes "example.org");
  family = af_inet;
  ipv4 = zero4;
  ipv6 = zero16;
  port = 443;
}

named-at : can_share_association named (at 1 443) ≡ false
unfolding can_share_association is_same_destination
named-at = refl
