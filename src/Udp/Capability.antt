-- ===== src/Udp/Capability.antt =====
-- Whether the proxy can carry UDP: CapabilityCircuit of src/ProxyLaneHook/UdpAssociationPolicy.h, and
-- the part of CProxyUDPTaskMgr in src/ProxyLaneHook/ProxyTaskMgr.cpp that drives it. Ticks are
-- DWORDs that wrap. The log lines are not modelled, the attempts that they count are.
pub mod Breaker
pub mod Manager
mod Tests
use proxy_lane.Common.{
  ℕ, ◌*◌, ◌^◌, Bool, true, false, not, ◌&&◌, Option, none, some, List, [], ltb, ◌==◌, if◌then◌else◌,
  bytes_eq, sub32, add32,
}

pub data CapabilityState : Type 0 where
  unknown supported unsupported temporarily_unavailable : CapabilityState

pub record CapabilityCircuit : Type 0 where
  pub state : CapabilityState
  pub consecutive_failures : ℕ
  pub blocked_until : ℕ
  pub suppressed_attempts : ℕ

unfoldable pub reset : CapabilityCircuit
reset = record {
  state = unknown;
  consecutive_failures = 0;
  blocked_until = 0;
  suppressed_attempts = 0;
}

abbrev pub is_unsupported : CapabilityState → Bool
is_unsupported unsupported = true
is_unsupported _ = false

abbrev pub is_unavailable : CapabilityState → Bool
is_unavailable temporarily_unavailable = true
is_unavailable _ = false

-- `(LONG)(a - b) >= 0`.
abbrev pub not_before : ℕ → ℕ → Bool
not_before a b = ltb (sub32 a b) (2 ^ 31)

-- The first half of CanAttempt: an expired block is lifted.
unfoldable pub expire : CapabilityCircuit → ℕ → CapabilityCircuit
expire c now =
    if is_unavailable c.state && not_before now c.blocked_until
    then record c { state = unknown; consecutive_failures = 0; blocked_until = 0 }
    else c

unfoldable pub can_attempt : CapabilityCircuit → ℕ → CapabilityCircuit × Bool
unfolding expire
can_attempt c now =
    let c' = expire c now in (c', not (is_unsupported c'.state) && not (is_unavailable c'.state))

abbrev pub threshold : ℕ
threshold = 3

abbrev pub cooldown : ℕ
cooldown = 60 * 1000

-- The callers use the default threshold and cooldown.
unfoldable pub report_failure : CapabilityCircuit → ℕ → Bool → CapabilityCircuit × Bool
report_failure c now permanent =
    if permanent
    then (record c { state = unsupported; blocked_until = 0 }, true)
    else if is_unsupported c.state
    then (c, true)
    else if ltb (add32 c.consecutive_failures 1) threshold
    then (
      record c { state = unknown; consecutive_failures = add32 c.consecutive_failures 1 },
      false,
    )
    else (
      record c {
        state = temporarily_unavailable;
        consecutive_failures = add32 c.consecutive_failures 1;
        blocked_until = add32 now cooldown;
      },
      true,
    )

unfoldable pub report_success : CapabilityCircuit → CapabilityCircuit
report_success c = record c { state = supported; consecutive_failures = 0; blocked_until = 0 }

-- The capability key is the profile's formatted text; a null profile has the empty one.
pub record Profile : Type 0 where
  pub proxy_type : ℕ
  pub key : List ℕ

abbrev pub proxytype_noproxy : ℕ
proxytype_noproxy = 0

abbrev pub proxytype_socks5 : ℕ
proxytype_socks5 = 3

pub record TaskMgr : Type 0 where
  pub capability_key : List ℕ
  pub capability : CapabilityCircuit

-- The Winsock error of a refused start.
pub data Start : Type 0 where
  started : Start
  op_not_supported : Start
  host_unreachable : Start

flush_summary : CapabilityCircuit → CapabilityCircuit
flush_summary c = record c { suppressed_attempts = 0 }

abbrev profile_key : Option Profile → List ℕ
profile_key none = []
profile_key (some p) = p.key

unfoldable pub ensure_profile : TaskMgr → Option Profile → TaskMgr
unfolding reset
ensure_profile m p =
    if bytes_eq (profile_key p) m.capability_key
    then m
    else record { capability_key = profile_key p; capability = reset }

-- A SOCKS5 profile asks the circuit, and an attempt that it refuses is counted.
unfoldable pub start_socks5 : TaskMgr → ℕ → TaskMgr × Start
unfolding can_attempt
start_socks5 m now =
    let asked = can_attempt m.capability now in
    let c = asked.0 in
    if asked.1 then (record m { capability = c }, started) else (
      record m { capability = record c { suppressed_attempts = add32 c.suppressed_attempts 1 } },
      if is_unsupported c.state then op_not_supported else host_unreachable,
    )

unfoldable pub can_start : TaskMgr → Option Profile → ℕ → TaskMgr × Start
unfolding ensure_profile start_socks5 report_failure
can_start m none now = (ensure_profile m none, started)
can_start m (some p) now =
    let m' = ensure_profile m (some p) in
    if p.proxy_type == proxytype_noproxy
    then (m', started)
    else if p.proxy_type == proxytype_socks5
    then start_socks5 m' now
    else (record m' { capability = (report_failure m'.capability now true).0 }, op_not_supported)

-- `permanent` is `errorCode == WSAEOPNOTSUPP`; the result says that UDP is blocked.
pub report_association_failure : TaskMgr → Profile → ℕ → Bool → TaskMgr × Bool
unfolding ensure_profile report_failure
report_association_failure m p now permanent =
    let m' = ensure_profile m (some p) in
    let reported = report_failure m'.capability now permanent in
    (record m' { capability = reported.0 }, reported.1)

pub report_association_ready : TaskMgr → Profile → TaskMgr
unfolding ensure_profile flush_summary report_success
report_association_ready m p =
    let m' = ensure_profile m (some p) in
    record m' { capability = report_success (flush_summary m'.capability) }

pub is_permanently_unsupported : TaskMgr → Bool
is_permanently_unsupported m = is_unsupported m.capability.state
