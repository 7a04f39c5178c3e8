-- ===== src/QuicPolicy/Browser.antt =====
-- The decision in a browser's process, src/ProxyLaneHook/BrowserQuicPolicy.cpp: each function up to
-- an access to the atomic state is one step. `initializers`, `launches` and `workers` count the
-- threads that have won a compare-exchange and have not stored the next state; `in_flight` lists the
-- reports that are on their way to the host. What the system answers is an argument.
pub mod Soundness
pub mod Verdict
mod Tests
use proxy_lane.Common.{
  ℕ, zero, suc, Bool, true, false, not, ◌&&◌, ◌||◌, List, [], ◌∷◌, ◌++◌, if◌then◌else◌,
}
use proxy_lane.QuicPolicy.{Status, no_status, pending, ready, unavailable, is_none}

pub data State : Type 0 where
  uninitialized disabled waiting working installed failed : State

pub record Process : Type 0 where
  pub state : State
  pub initializers : ℕ
  pub launches : ℕ
  pub workers : ℕ
  pub published : Status
  pub in_flight : List Status

abbrev pub new_process : Process
new_process = record {
  state = uninitialized;
  initializers = 0;
  launches = 0;
  workers = 0;
  published = no_status;
  in_flight = [];
}

abbrev pub is_uninitialized : State → Bool
is_uninitialized uninitialized = true
is_uninitialized _ = false

abbrev pub is_waiting : State → Bool
is_waiting waiting = true
is_waiting _ = false

abbrev pub current_status : State → Status
current_status working = pending
current_status installed = ready
current_status failed = unavailable
current_status _ = no_status

abbrev pub same_status : Status → Status → Bool
same_status no_status no_status = true
same_status pending pending = true
same_status ready ready = true
same_status unavailable unavailable = true
same_status _ _ = false

-- Initialize up to its first compare-exchange, and from there on.
unfoldable pub initialize : Bool → Process → Process
initialize enabled p =
    if is_uninitialized p.state
    then record p {
      state = disabled;
      initializers = if enabled then suc p.initializers else p.initializers;
    }
    else p

unfoldable pub initialized_at : Bool → ℕ → Process → Process
initialized_at found zero p = p
initialized_at found (suc n) p = record p {
  state = if found then waiting else disabled;
  initializers = n;
}

-- `found`: the module's path and the process's identity are known.
unfoldable pub initialized : Bool → Process → Process
unfolding initialized_at
initialized found p = initialized_at found p.initializers p

unfoldable pub setup_failed : Process → Process
setup_failed p = if is_waiting p.state then record p { state = failed } else p

-- OnUdp up to its compare-exchange, where the browser's module is loaded.
unfoldable pub on_udp : Process → Process
on_udp p = if is_waiting p.state then record p { state = working; launches = suc p.launches } else p

-- OnUdp's thread: whether it could be made.
unfoldable pub launched_at : Bool → ℕ → Process → Process
launched_at made zero p = p
launched_at true (suc n) p = record p { launches = n; workers = suc p.workers }
launched_at false (suc n) p = record p { launches = n; state = failed }

unfoldable pub launched : Bool → Process → Process
unfolding launched_at
launched made p = launched_at made p.launches p

-- Worker stores its result, and reports it. That the log line of a success fails for want of memory,
-- which stores Failed behind Installed, is left out.
unfoldable pub worked_at : Bool → ℕ → Process → Process
worked_at done zero p = p
worked_at done (suc n) p = record p {
  workers = n;
  state = if done then installed else failed;
  in_flight = p.in_flight ++ (if done then ready else unavailable) ∷ [];
}

unfoldable pub worked : Bool → Process → Process
unfolding worked_at
worked done p = worked_at done p.workers p

-- Publish up to its report.
unfoldable pub publish : Process → Process
publish p =
    if is_none (current_status p.state) || same_status (current_status p.state) p.published
    then p
    else record p { in_flight = p.in_flight ++ current_status p.state ∷ [] }

-- Publish behind its report, where it was acknowledged.
unfoldable pub published : Status → Process → Process
published status p = record p { published = status }
