-- ===== src/Snapshot/Tests.antt =====
-- A query that is cancelled while its thread runs, and one behind it.
use proxy_lane.Common.{ℕ, ◌+◌, ◌^◌, ◌<◌, ◌≡◌, refl, true, false, none, some, List, [], ◌∷◌, arith}
use proxy_lane.Snapshot.{
  Operation, request, finish, take_result, cancel, asked, taken, silent, new_snapshot, run,
}
use proxy_lane.Snapshot.Refinement.{phase, idle, cancels, abstract_run, run-new_snapshot_refines}

abbrev operations : List (Operation ℕ)
operations =
    request
    ∷ cancel
    ∷ request
    ∷ finish 0 (some 5)
    ∷ take_result
    ∷ request
    ∷ finish 0 (some 6)
    ∷ take_result
    ∷ []

replies :
    (run operations new_snapshot).1
    ≡ asked true
      ∷ silent
      ∷ asked false
      ∷ silent
      ∷ taken none
      ∷ asked true
      ∷ silent
      ∷ taken (some 6)
      ∷ []
unfolding run new_snapshot
replies = refl

few : cancels operations + 1 < 2 ^ 64
unfolding cancels
few = omega arith

run-new_snapshot_refines_example :
    ((run operations new_snapshot).1 ≡ (abstract_run operations idle).1)
    × (phase (run operations new_snapshot).0 ≡ (abstract_run operations idle).0)
run-new_snapshot_refines_example = run-new_snapshot_refines operations few
