-- ===== src/LogQueue/Tests.antt =====
-- A queue of two entries.
use proxy_lane.Common.{ℕ, ◌≡◌, refl, true, [], ◌∷◌, arith}
use proxy_lane.LogQueue.{LogQueue, new_queue, push}
use proxy_lane.LogQueue.Order.{pushed, taken, run, IsValid, run-new_queue-IsValid}

abbrev two : LogQueue ℕ
two = record {
  entries = 1 ∷ 2 ∷ [];
  capacity = 2;
  batch_size = 1;
  dropped = 0;
  notification_pending = true;
}

-- The third entry drops the first.
push_third : (push two 3).0.entries ≡ 2 ∷ 3 ∷ []
unfolding push
push_third = refl

run-new_queue-IsValid_example :
    IsValid {T = ℕ} (run (new_queue 2 1) (pushed 1 ∷ pushed 2 ∷ taken ∷ pushed 3 ∷ []))
run-new_queue-IsValid_example =
    run-new_queue-IsValid 2 1 (pushed 1 ∷ pushed 2 ∷ taken ∷ pushed 3 ∷ []) (omega arith)
