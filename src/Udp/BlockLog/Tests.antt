-- ===== src/Udp/BlockLog/Tests.antt =====
-- A limiter that has logged one destination.
use proxy_lane.Common.{ℕ, ◌+◌, ◌≤◌, ◌≡◌, refl, true, false, [], ◌∷◌, arith, get_or, bytes_eq}
use proxy_lane.SockAddr.{SockAddr, In6, af_inet, zero16}
use proxy_lane.Udp.BlockLog.{Entry, Limiter, allow}
use proxy_lane.Udp.BlockLog.Budget.{allowed, allowed_le, allow_keeps_live}

abbrev in6 : In6
in6 = record {
  is_v4mapped = λ a. false;
  is_unspecified = λ a. false;
  is_loopback = λ a. false;
  is_multicast = λ a. false;
  is_linklocal = λ a. false;
  are_equal = bytes_eq;
}

abbrev to : ℕ → SockAddr
to host = record {
  family = af_inet;
  port = 443;
  sin_addr = 10 ∷ 0 ∷ 0 ∷ host ∷ [];
  sin6_addr = zero16;
  scope_id = 0;
}

abbrev entry : Entry
entry = record { used = true; destination = to 1; last_logged = 7000 }

abbrev limiter : Limiter
limiter = record {
  entries = entry ∷ record { used = false; destination = to 0; last_logged = 0 } ∷ [];
  window_start = 6000;
  window_count = 9;
}

-- The last line of the interval is granted, and the next one is not.
allowed_le_example : 9 + allowed in6 limiter ((to 2, 7100) ∷ (to 3, 7200) ∷ []) ≤ 10
allowed_le_example =
    allowed_le in6 limiter ((to 2, 7100) ∷ (to 3, 7200) ∷ []) (omega arith)
      (omega arith, (omega arith, tt))

allow_keeps_live_example : get_or (allow in6 limiter (to 2) 7100).0.entries 0 entry ≡ entry
allow_keeps_live_example = allow_keeps_live in6 limiter (to 2) 7100 0 entry (omega arith) refl
