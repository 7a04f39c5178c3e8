-- ===== src/Udp/Capability/Tests.antt =====
-- Runs of the circuit.
use proxy_lane.Common.{ℕ, ◌+◌, ◌^◌, ◌≤◌, ◌<◌, ◌≡◌, refl, true, false, [], ◌∷◌, arith, add32}
use proxy_lane.Udp.Capability.{
  unknown, temporarily_unavailable, CapabilityCircuit, reset, can_attempt, cooldown, Profile,
  TaskMgr, proxytype_socks5,
}
use proxy_lane.Udp.Capability.Breaker.{Counted, attempt, failure, run, reopens, run-reset-Counted}

abbrev opened_at : ℕ
opened_at = 4294967000

-- Opened shortly before the tick wraps.
abbrev open_circuit : CapabilityCircuit
open_circuit = record {
  state = temporarily_unavailable;
  consecutive_failures = 3;
  blocked_until = add32 opened_at cooldown;
  suppressed_attempts = 0;
}

reopens_example :
    (1000 < cooldown → can_attempt open_circuit (add32 opened_at 1000) ≡ (open_circuit, false))
    × (cooldown ≤ 1000
        → 1000 < cooldown + 2 ^ 31
        → can_attempt open_circuit (add32 opened_at 1000) ≡ (
          record open_circuit { state = unknown; consecutive_failures = 0; blocked_until = 0 },
          true,
        ))
reopens_example = reopens open_circuit opened_at 1000 (omega arith) refl refl

run-reset-Counted_example :
    let c = run reset (failure 5 false ∷ attempt 6 ∷ failure 7 false ∷ []) in
    Counted c.state c.consecutive_failures
run-reset-Counted_example = run-reset-Counted (failure 5 false ∷ attempt 6 ∷ failure 7 false ∷ [])

abbrev blocked_mgr : TaskMgr
blocked_mgr = record { capability_key = 1 ∷ []; capability = open_circuit }

abbrev profile : Profile
profile = record { proxy_type = proxytype_socks5; key = 1 ∷ [] }

abbrev other_profile : Profile
other_profile = record { proxy_type = proxytype_socks5; key = 2 ∷ [] }
