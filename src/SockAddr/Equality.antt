-- ===== src/SockAddr/Equality.antt =====
-- `operator ==` of src/ProxyLaneHook/structinfo.h.
use proxy_lane.Common.{ℕ, ◌≡◌, ◌↔◌, ◌⊎◌, true, List, arith, bytes_eq_sound, bytes_eq_refl}
use proxy_lane.SockAddr.{get_dword_ip, same_address, SockAddr, In6, equals, af_inet, af_inet6}

module _ (ws : In6) (are_equal_iff : (x y : List ℕ) → (ws.are_equal x y ≡ true) ↔ (x ≡ y)) where
  -- Where the platform's test compares the bytes, two addresses are equal exactly when both are IPv4
  -- with the same address and port, or both IPv6 with the same address and port; flow information and
  -- scope do not count, and an address of any other family equals none, itself included.
  pub equals_iff :
      (a b : SockAddr)
      → (equals ws a b ≡ true) ↔ (
          (a.port ≡ b.port)
          × (((a.family ≡ af_inet) × (b.family ≡ af_inet) × (a.sin_addr ≡ b.sin_addr))
              ⊎ ((a.family ≡ af_inet6) × (b.family ≡ af_inet6) × (a.sin6_addr ≡ b.sin6_addr))))
  unfolding equals same_address get_dword_ip
  equals_iff a b = (
    λ h.
        ground (arith, are_equal_iff a.sin6_addr b.sin6_addr, bytes_eq_sound a.sin_addr b.sin_addr),
    λ h. ground (arith, are_equal_iff a.sin6_addr b.sin6_addr, bytes_eq_refl a.sin_addr),
  )
