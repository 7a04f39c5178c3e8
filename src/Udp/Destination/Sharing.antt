-- ===== src/Udp/Destination/Sharing.antt =====
-- When two routes may share an association, in src/ProxyLaneHook/UdpAssociationPolicy.h.
use proxy_lane.Common.{
  map, to_lower, ap, bytes_eq, bytes_eq_sound, same_text_sym, ℕ, ◌≡◌, refl, ◌≢◌, ◌⊎◌, true, false,
  Option, none, some, List, arith, bytes_eq_refl, bytes_eq_sym,
}
use proxy_lane.SockAddr.{af_inet6}
use proxy_lane.Udp.Destination.{
  Destination, is_same_destination, can_share_association, same_domain,
}

same_domain_sym : (l r : Option (List ℕ)) → same_domain l r ≡ same_domain r l
unfolding same_domain
same_domain_sym none none = refl
same_domain_sym none (some r) = refl
same_domain_sym (some l) none = refl
same_domain_sym (some l) (some r) = same_text_sym l r

pub is_same_destination_sym :
    (a b : Destination) → is_same_destination a b ≡ is_same_destination b a
unfolding is_same_destination
is_same_destination_sym a b = ground (
  arith,
  same_domain_sym a.domain b.domain,
  bytes_eq_sym a.ipv4 b.ipv4,
  bytes_eq_sym a.ipv6 b.ipv6,
)

-- Whether two routes may share an association does not depend on which of them was there first.
pub can_share_association_sym :
    (a b : Destination) → can_share_association a b ≡ can_share_association b a
unfolding can_share_association
can_share_association_sym a b = ground (arith, is_same_destination_sym a b)

-- Two different routes that share an association are told apart by a reply's address: they have
-- different ports, or both were given by address, of another family or with other bytes.
pub shared_routes_differ :
    (a b : Destination)
    → is_same_destination a b ≡ false
    → can_share_association a b ≡ true
    → (a.port ≢ b.port)
      ⊎ ((a.has_domain ≡ false)
          × (b.has_domain ≡ false)
          × ((a.family ≢ b.family)
              ⊎ (((a.family ≡ af_inet6) × (a.ipv6 ≢ b.ipv6))
                  ⊎ ((a.family ≢ af_inet6) × (a.ipv4 ≢ b.ipv4)))))
unfolding can_share_association is_same_destination
shared_routes_differ a b h s = ground (arith, bytes_eq_refl a.ipv4, bytes_eq_refl a.ipv6)

same_domain_cong :
    (a b c : Option (List ℕ)) → same_domain a b ≡ true → same_domain a c ≡ same_domain b c
unfolding same_domain
same_domain_cong none b c h = ground arith
same_domain_cong (some x) none c h = ground arith
same_domain_cong (some x) (some y) none h = refl
same_domain_cong (some x) (some y) (some z) h =
    ap (λ t. bytes_eq t (map to_lower z)) (bytes_eq_sound (map to_lower x) (map to_lower y) h)

-- Two names of one destination stand for it alike.
pub is_same_destination_cong :
    (a b c : Destination)
    → is_same_destination a b ≡ true
    → is_same_destination a c ≡ is_same_destination b c
unfolding is_same_destination
is_same_destination_cong a b c h = ground (
  arith,
  same_domain_cong a.domain b.domain c.domain,
  bytes_eq_sound a.ipv4 b.ipv4,
  bytes_eq_sound a.ipv6 b.ipv6,
)

is_same_destination_fields :
    (a b : Destination)
    → is_same_destination a b ≡ true
    → (a.port ≡ b.port) × (a.has_domain ≡ b.has_domain)
unfolding is_same_destination
is_same_destination_fields a b h = ground arith

pub can_share_cong :
    (a b c : Destination)
    → is_same_destination a b ≡ true
    → can_share_association a c ≡ can_share_association b c
unfolding can_share_association
can_share_cong a b c h =
    ground (arith, is_same_destination_cong a b c h, is_same_destination_fields a b h)
