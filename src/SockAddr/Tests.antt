-- ===== src/SockAddr/Tests.antt =====
-- Two endpoints, compared. The platform's IPv6 tests are instantiated by comparisons of the bytes.
use proxy_lane.Common.{
  ℕ, ◌≡◌, ◌↔◌, true, List, [], ◌∷◌, ◌++◌, ◌==◌, get_or, take, bytes_eq, bytes_eq_sound,
  bytes_eq_refl,
}
use proxy_lane.SockAddr.{SockAddr, In6, af_inet, af_inet6, zero4, zero16}

abbrev bytes_in6 : In6
bytes_in6 = record {
  is_v4mapped = λ a. bytes_eq (take 12 a) (zero4 ++ zero4 ++ (0 ∷ 0 ∷ 255 ∷ 255 ∷ []));
  is_unspecified = λ a. bytes_eq a zero16;
  is_loopback = λ a. bytes_eq a (zero4 ++ zero4 ++ zero4 ++ (0 ∷ 0 ∷ 0 ∷ 1 ∷ []));
  is_multicast = λ a. get_or a 0 0 == 255;
  is_linklocal = λ a. bytes_eq (take 2 a) (254 ∷ 128 ∷ []);
  are_equal = bytes_eq;
}

bytes_in6_equal : (x y : List ℕ) → (bytes_in6.are_equal x y ≡ true) ↔ (x ≡ y)
bytes_in6_equal x y = (bytes_eq_sound x y, λ e. rw e (bytes_eq_refl y))

abbrev local4 : SockAddr
local4 = record {
  family = af_inet;
  port = 1080;
  sin_addr = 127 ∷ 0 ∷ 0 ∷ 1 ∷ [];
  sin6_addr = zero16;
  scope_id = 0;
}

abbrev local6 : SockAddr
local6 = record {
  family = af_inet6;
  port = 1080;
  sin_addr = zero4;
  sin6_addr = zero4 ++ zero4 ++ zero4 ++ (0 ∷ 0 ∷ 0 ∷ 1 ∷ []);
  scope_id = 0;
}
