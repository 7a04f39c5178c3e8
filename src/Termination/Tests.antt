-- ===== src/Termination/Tests.antt =====
-- Two processes: one that ends, and one whose number has a new owner.
use proxy_lane.Common.{◌≡◌, refl, true, false, none, some, List, [], ◌∷◌, map, arith, All}
use proxy_lane.Termination.{
  TerminationTarget, Opening, exited, Answers, Row, terminate_exact_processes,
}
use proxy_lane.Termination.Identity.{GivesErrors, IsRight, terminate_exact_processes-IsRight}

abbrev alive : Opening
alive = record {
  opened = true;
  opened_limited = false;
  open_error = 5;
  has_exited = false;
  creation_time = 700;
  time_error = 0;
  signalled = false;
  has_is_critical = true;
  is_critical = some false;
  critical_error = 0;
  break_on_termination = none;
}

abbrev ends : Answers
ends = record {
  opening = alive;
  cancelled_open = false;
  now_open = 10;
  cancelled_end = false;
  now_end = 20;
  exiting = false;
  signalled = false;
  terminated = true;
  terminate_error = 0;
  signalled_after = false;
  now_wait = 30;
  waited = λ time. exited;
}

abbrev targets : List (TerminationTarget × Answers)
targets =
    (record { pid = 40; creation_time = 700 }, ends)
    ∷ (record { pid = 44; creation_time = 600 }, ends)
    ∷ []

ended :
    map (λ (r : Row). r.ended) (terminate_exact_processes 9 0 3000 targets)
    ≡ some (record { pid = 40; creation_time = 700 }) ∷ none ∷ []
unfolding terminate_exact_processes
ended = refl

ends-GivesErrors : GivesErrors ends
ends-GivesErrors = record {
  open_error = λ e. absurd (omega (arith, e));
  wait_error = λ time error e. absurd (cc);
}

terminate_exact_processes-IsRight_example :
    let rows = terminate_exact_processes 9 0 3000 targets in
    All (IsRight 9 0 3000) rows × (map (λ r. (r.target, r.answers)) rows ≡ targets)
terminate_exact_processes-IsRight_example =
    terminate_exact_processes-IsRight 9 0 3000 targets (ends-GivesErrors, (ends-GivesErrors, tt))
