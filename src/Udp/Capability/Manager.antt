-- ===== src/Udp/Capability/Manager.antt =====
-- CProxyUDPTaskMgr's use of the circuit, in src/ProxyLaneHook/ProxyTaskMgr.cpp.
use proxy_lane.Common.{
  ℕ, ◌≡◌, ◌≢◌, ◌↔◌, ◌⊎◌, true, false, some, arith, bytes_eq_sound, bytes_eq_refl, add32,
}
use proxy_lane.Udp.Capability.{
  unsupported, reset, can_attempt, Profile, TaskMgr, started, op_not_supported, can_start,
  proxytype_socks5,
}

-- A block does not carry over to another profile: a SOCKS5 profile with another key may start,
-- whatever the failures of the one before.
pub can_start_new_profile :
    (m : TaskMgr) (p : Profile) (now : ℕ)
    → p.proxy_type ≡ proxytype_socks5
    → p.key ≢ m.capability_key
    → can_start m (some p) now ≡ (record { capability_key = p.key; capability = reset }, started)
unfolding can_start reset can_attempt
can_start_new_profile m p now ht hk = ground (arith, bytes_eq_sound p.key m.capability_key)

-- For the current SOCKS5 profile a start is refused exactly when the circuit refuses the attempt;
-- the refusal is counted and names the reason.
pub can_start_same_profile :
    (m : TaskMgr) (p : Profile) (now : ℕ)
    → p.proxy_type ≡ proxytype_socks5
    → p.key ≡ m.capability_key
    → let asked = can_attempt m.capability now in
      let r = can_start m (some p) now in
      ((asked.1 ≡ true) × (r ≡ (record m { capability = asked.0 }, started)))
      ⊎ ((asked.1 ≡ false)
          × (r.1 ≢ started)
          × (r.0.capability.suppressed_attempts ≡ add32 m.capability.suppressed_attempts 1)
          × (r.0.capability.state ≡ m.capability.state)
          × ((r.1 ≡ op_not_supported) ↔ (m.capability.state ≡ unsupported)))
unfolding can_start can_attempt
can_start_same_profile m p now ht hk = ground (arith, bytes_eq_refl m.capability_key)
