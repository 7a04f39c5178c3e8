-- ===== src/Tcp/Peer/Tests.antt =====
-- A client that sends three bytes and closes its half, to a server that takes them in two pieces.
use proxy_lane.Common.{◌≡◌, refl, Bool, true, false, List, [], ◌∷◌}
use proxy_lane.Tcp.Peer.{Link, flip, taken, would_block, failed, is_timeout}
use proxy_lane.Tcp.Peer.Flow.{IsRelay}
use proxy_lane.Tcp.Peer.Handlers.{
  got, end_of_stream, not_ready, is_ready, Round, on_receive, on_close,
}
use proxy_lane.Tcp.Peer.Runs.{
  Action, receive, send, connect, new_link, step, run, AnswersAlong, run-new_link-IsRelay,
}
use proxy_lane.Tcp.Peer.Failures.{
  round, IsLost, GoesOn, IsArmed, IsDisarmed, on_receive-send_failed, on_receive-disarms,
}

abbrev three_bytes : Round
three_bytes = record {
  receive = got (7 ∷ 8 ∷ 9 ∷ []);
  send = taken 2 ∷ would_block ∷ [];
  readable = not_ready;
}

abbrev the_end : Round
the_end = record { receive = end_of_stream; send = []; readable = not_ready }

abbrev actions : List (Bool × Action)
actions =
    (false, connect 10 0 true true false)
    ∷ (true, receive 20 0 (three_bytes ∷ []) false false)
    ∷ (false, send 30 0 (taken 1 ∷ []) is_ready false false)
    ∷ (true, receive 40 0 (the_end ∷ []) false false)
    ∷ []

after : (run actions (new_link 0)).self.outgoing ≡ 7 ∷ 8 ∷ 9 ∷ []
unfolding run new_link
after = refl

shut_down : (run actions (new_link 0)).self.write_shutdown ≡ true
unfolding run new_link
shut_down = refl

actions-Answers : AnswersAlong actions (new_link 0)
unfolding step new_link
actions-Answers = (tt, (((refl, tt, tt), tt), ((tt, tt), (((tt, tt, tt), tt), tt))))

run-new_link-IsRelay_example : IsRelay (run actions (new_link 0))
run-new_link-IsRelay_example = run-new_link-IsRelay 0 actions actions-Answers

-- The client's side of a task that is connecting.
abbrev client_first : Link
client_first = flip (new_link 0)

-- The server resets the connection: the byte is lost, and the client goes on.
on_receive-send_failed_example :
    let l' =
      on_receive 5 0 (round 7 [] (failed 10054 ∷ []) not_ready ∷ []) false false client_first in
    IsLost (7 ∷ []) client_first l' × GoesOn l' (on_close 0 false l')
unfolding new_link
on_receive-send_failed_example =
    on_receive-send_failed 5 10054 7 [] [] not_ready false false client_first refl refl refl

-- 15 seconds later the server would have been given up.
on_receive-disarms_example :
    let closing = on_close 0 false client_first in
    let l' = on_receive 5 0 (round 7 [] (would_block ∷ []) not_ready ∷ []) false false closing in
    GoesOn client_first closing × IsArmed 15001 closing × IsDisarmed (7 ∷ []) closing l'
unfolding new_link is_timeout
on_receive-disarms_example =
    on_receive-disarms 5 15001 7 [] [] not_ready false false client_first refl refl refl refl refl
