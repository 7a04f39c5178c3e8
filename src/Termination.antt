-- ===== src/Termination.antt =====
-- The end of chosen processes, src/ProxyLane/ProcessActions.h: OpenForTermination and
-- TerminateExactProcesses. What Windows answers about each process is an argument.
pub mod Found
pub mod Identity
mod Tests
use proxy_lane.Common.{
  ℕ, ◌-◌, ◌⊎◌, inl, inr, Bool, true, false, not, ◌&&◌, ◌||◌, Option, none, some, List, map, ltb,
  leb, ◌==◌, if◌then◌else◌, sub32,
}

abbrev pub error_access_denied : ℕ
error_access_denied = 5

abbrev pub error_invalid_data : ℕ
error_invalid_data = 13

abbrev pub error_invalid_parameter : ℕ
error_invalid_parameter = 87

abbrev pub error_not_found : ℕ
error_not_found = 1168

abbrev pub error_cancelled : ℕ
error_cancelled = 1223

abbrev pub error_timeout : ℕ
error_timeout = 1460

pub record TerminationTarget : Type 0 where
  pub pid : ℕ
  pub creation_time : ℕ

-- A handle, by the lifetime of the process that it holds.
pub record Handle : Type 0 where
  pub pid : ℕ
  pub creation_time : ℕ

-- The answers to OpenForTermination: OpenProcess with either right, and its error; HasExited; the
-- creation time, 0 where it fails, with the error; the wait on the handle; IsProcessCritical, where
-- there is one, none where it fails, with the error; and NtQueryInformationProcess.
pub record Opening : Type 0 where
  pub opened : Bool
  pub opened_limited : Bool
  pub open_error : ℕ
  pub has_exited : Bool
  pub creation_time : ℕ
  pub time_error : ℕ
  pub signalled : Bool
  pub has_is_critical : Bool
  pub is_critical : Option Bool
  pub critical_error : ℕ
  pub break_on_termination : Option Bool

-- The errors of the test for a critical process; `false` is no error.
unfoldable pub critical_test : Opening → ℕ
critical_test o =
    if o.has_is_critical
    then elim o.is_critical [
      | none ↦ o.critical_error
      | some critical ↦ if critical then error_access_denied else 0
    ]
    else elim o.break_on_termination [
      | none ↦ error_access_denied
      | some critical ↦ if critical then error_access_denied else 0
    ]

-- The tests on an open handle.
unfoldable pub handle_test : ℕ → Opening → ℕ
unfolding critical_test
handle_test expected o =
    if o.creation_time == 0
    then if o.time_error == 0 then error_invalid_data else o.time_error
    else if not (o.creation_time == expected)
    then error_not_found
    else if o.signalled
    then error_not_found
    else critical_test o

-- OpenForTermination in the process `self`: its handle, or the last error.
unfoldable pub open_for_termination : ℕ → TerminationTarget → Opening → ℕ ⊎ Handle
unfolding handle_test
open_for_termination self target o =
    let error = handle_test target.creation_time o in
    if leb target.pid 4 || target.pid == self
    then inl error_access_denied
    else if target.creation_time == 0
    then inl error_invalid_data
    else if not (o.opened || o.opened_limited)
    then inl (if o.has_exited then error_not_found else o.open_error)
    else if not (error == 0)
    then inl error
    else inr (record { pid = target.pid; creation_time = o.creation_time })

-- The result of WaitForMultipleObjects.
pub data Waited : Type 0 where
  exited cancelled timed_out : Waited
  wait_failed : ℕ → Waited

-- The answers about one process in the three loops: the cancel event and the clock before each of
-- the first two, the state of the process and TerminateProcess, and the wait for a time.
pub record Answers : Type 0 where
  pub opening : Opening
  pub cancelled_open : Bool
  pub now_open : ℕ
  pub cancelled_end : Bool
  pub now_end : ℕ
  pub exiting : Bool
  pub signalled : Bool
  pub terminated : Bool
  pub terminate_error : ℕ
  pub signalled_after : Bool
  pub now_wait : ℕ
  pub waited : ℕ → Waited

-- One place of the vectors, and the handle that TerminateProcess was called with.
pub record Row : Type 0 where
  pub target : TerminationTarget
  pub answers : Answers
  pub error : ℕ
  pub handle : Option Handle
  pub ended : Option Handle

abbrev pub new_row : TerminationTarget × Answers → Row
new_row e = record { target = e.0; answers = e.1; error = 0; handle = none; ended = none }

unfoldable pub interrupted : ℕ → ℕ → Bool → ℕ → ℕ
interrupted started wait_ms is_cancelled now =
    if is_cancelled
    then error_cancelled
    else if leb wait_ms (sub32 now started)
    then error_timeout
    else 0

abbrev pub opened_row : Row → ℕ ⊎ Handle → Row
opened_row r (inl error) = record r {
  error = if error == error_not_found || error == error_invalid_parameter then 0 else error;
}
opened_row r (inr handle) = record r { error = 0; handle = some handle }

unfoldable pub open_row : ℕ → ℕ → ℕ → Row → Row
unfolding interrupted open_for_termination
open_row self started wait_ms r =
    let stop = interrupted started wait_ms r.answers.cancelled_open r.answers.now_open in
    let opened = opened_row r (open_for_termination self r.target r.answers.opening) in
    if not (stop == 0) then record r { error = stop } else opened

unfoldable pub end_handle : ℕ → ℕ → Row → Option Handle → Row
unfolding interrupted
end_handle started wait_ms r none = r
end_handle started wait_ms r (some handle) =
    let stop = interrupted started wait_ms r.answers.cancelled_end r.answers.now_end in
    let error =
      if not r.answers.terminated && not r.answers.signalled_after
      then r.answers.terminate_error
      else 0 in
    if not (stop == 0)
    then record r { error = stop }
    else if r.answers.exiting || r.answers.signalled
    then record r { error = 0 }
    else record r { error = error; ended = some handle }

unfoldable pub end_row : ℕ → ℕ → Row → Row
unfolding end_handle
end_row started wait_ms r = end_handle started wait_ms r r.handle

unfoldable pub remaining : ℕ → ℕ → ℕ → ℕ
remaining started wait_ms now =
    if ltb (sub32 now started) wait_ms then wait_ms - sub32 now started else 0

abbrev pub wait_error : Waited → ℕ
wait_error exited = 0
wait_error cancelled = error_cancelled
wait_error timed_out = error_timeout
wait_error (wait_failed error) = error

abbrev pub is_exited : Waited → Bool
is_exited exited = true
is_exited _ = false

unfoldable pub wait_handle : ℕ → ℕ → Row → Option Handle → Row
unfolding remaining
wait_handle started wait_ms r none = r
wait_handle started wait_ms r (some handle) =
    let waited = r.answers.waited (remaining started wait_ms r.answers.now_wait) in
    if is_exited waited
    then record r { error = 0 }
    else if r.error == 0
    then record r { error = wait_error waited }
    else r

unfoldable pub wait_row : ℕ → ℕ → Row → Row
unfolding wait_handle
wait_row started wait_ms r = wait_handle started wait_ms r r.handle

unfoldable pub terminate_exact_processes : ℕ → ℕ → ℕ → List (TerminationTarget × Answers) → List Row
unfolding open_row end_row wait_row
terminate_exact_processes self started wait_ms targets =
    map (wait_row started wait_ms)
      (map (end_row started wait_ms) (map (open_row self started wait_ms) (map new_row targets)))
