-- ===== src/QuicPolicy/Browser/Tests.antt =====
-- A browser whose hook is installed, and whose report arrives.
use proxy_lane.Common.{◌+◌, ◌≤◌, ◌≡◌, refl, true, none, some, [], ◌∷◌, arith}
use proxy_lane.QuicPolicy.{no_status, ready, unavailable, lookup, find, observe}
use proxy_lane.QuicPolicy.Browser.{
  installed, failed, Process, new_process, initialize, initialized, on_udp, launched, worked,
}
use proxy_lane.QuicPolicy.Browser.Verdict.{
  World, Reach, here, next, initialize_step, initialized_step, on_udp_step, launched_step,
  worked_step, arrive, Reach_verdict,
}

abbrev start : World
start = record { process = new_process; table = [] }

abbrev at_work : Process
at_work = worked true (launched true (on_udp (initialized true (initialize true new_process))))

sent : at_work.in_flight ≡ ready ∷ []
unfolding worked launched on_udp initialized initialize
sent = refl

abbrev told : World
told = record {
  process = record at_work { in_flight = [] };
  table = observe 50 60 [] 1 2 (record { birth = 3; status = some ready });
}

told-Reach : Reach 1 2 3 start told
told-Reach =
    next
      (next
        (next
          (next (next (next here (initialize_step start true)) (initialized_step _ true))
            (on_udp_step _))
          (launched_step _ true))
        (worked_step _ true))
      (arrive (record { process = at_work; table = [] }) [] [] ready 50 60 sent)

is_told : lookup told.table 1 2 3 no_status ≡ ready
unfolding lookup observe
is_told = refl

nothing_yet : find [] (record { owner = 1; pid = 2; birth = 3 }) ≡ none
unfolding find
nothing_yet = refl

Reach_verdict_example :
    (lookup told.table 1 2 3 no_status ≡ ready → told.process.state ≡ installed)
    × (lookup told.table 1 2 3 no_status ≡ unavailable → told.process.state ≡ failed)
    × (told.process.initializers + (told.process.launches + told.process.workers) ≤ 1)
Reach_verdict_example = Reach_verdict 1 2 3 [] (omega arith) (omega arith) nothing_yet told-Reach
