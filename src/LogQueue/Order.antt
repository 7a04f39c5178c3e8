-- ===== src/LogQueue/Order.antt =====
-- No entry of the log queue of src/ProxyLane/BoundedLogQueue.h is lost without being counted, and none
-- waits without a notification.
use proxy_lane.Common.{
  ℕ, zero, suc, ◌+◌, ◌≤◌, ◌<◌, ◌≡◌, refl, ◌↔◌, false, not, List, [], ◌∷◌, ◌++◌, arith, leb,
  if◌then◌else◌, length, take, drop, length-append, length-drop, take-append-drop,
}
use proxy_lane.LogQueue.{LogQueue, new_queue, push, take_batch, clear_queue}

pub data Call (T : Type 0) : Type 0 where
  pushed : T → Call T
  taken : Call T
  cleared : Call T

module _ {T : Type 0} where
  unfoldable pub step : LogQueue T → Call T → LogQueue T
  step q (pushed value) = (push q value).0
  step q taken = (take_batch q).0
  step q cleared = clear_queue q

  unfoldable pub run : LogQueue T → List (Call T) → LogQueue T
  run q [] = q
  run q (c ∷ cs) = run (step q c) cs

  -- Entries that wait have been announced, and there is room for them.
  pub record IsValid (q : LogQueue T) : Type 0 where
    pub announced : q.notification_pending ≡ false → q.entries ≡ []
    pub bounded : length q.entries ≤ q.capacity
    pub positive : 0 < q.capacity

  push-IsValid : (q : LogQueue T) (value : T) → IsValid q → IsValid (push q value).0
  unfolding push
  push-IsValid q value v = ground (
    arith,
    length-append (drop 1 q.entries) (value ∷ []),
    length-append q.entries (value ∷ []),
    length-drop 1 q.entries,
  )

  take_batch-IsValid : (q : LogQueue T) → IsValid q → IsValid (take_batch q).0
  unfolding take_batch
  take_batch-IsValid q v = ground (arith, length-drop q.batch_size q.entries)

  run-IsValid : (q : LogQueue T) (cs : List (Call T)) → IsValid q → IsValid (run q cs)
  unfolding run step
  run-IsValid q [] v = v
  run-IsValid q (pushed value ∷ cs) v = run-IsValid (push q value).0 cs (push-IsValid q value v)
  run-IsValid q (taken ∷ cs) v = run-IsValid (take_batch q).0 cs (take_batch-IsValid q v)
  run-IsValid q (cleared ∷ cs) v =
      run-IsValid (clear_queue q) cs (unfold clear_queue in ground arith)

  -- After any pushes, batches and clears the queue holds at most its capacity, and where no
  -- notification is pending it is empty: an entry that waits has been announced.
  pub run-new_queue-IsValid :
      (capacity batch_size : ℕ) (cs : List (Call T))
      → 0 < capacity
      → IsValid (run (new_queue capacity batch_size) cs)
  run-new_queue-IsValid capacity batch_size cs h =
      run-IsValid (new_queue capacity batch_size) cs (unfold new_queue in ground arith)

  length-take-le : (n : ℕ) (xs : List T) → length (take n xs) ≤ n
  length-take-le zero xs = omega arith
  length-take-le (suc n) [] = omega arith
  length-take-le (suc n) (x ∷ xs) = ground (arith, length-take-le n xs)

  -- A batch is the oldest entries, at most `batch_size` of them, with the number of those that were
  -- given up before them; the rest stays in order, and `has_more` says whether there is a rest.
  take_batch_lem :
      (q : LogQueue T)
      → let r = take_batch q in
        (r.1.entries ++ r.0.entries ≡ q.entries)
        × (length r.1.entries ≤ q.batch_size)
        × (r.1.dropped ≡ q.dropped)
        × (r.0.dropped ≡ 0)
        × ((r.1.has_more ≡ false) ↔ (r.0.entries ≡ []))
  unfolding take_batch
  take_batch_lem q =
      ground (arith, take-append-drop q.batch_size q.entries, length-take-le q.batch_size q.entries)

  -- Every push is accounted for: the entries that wait and the number given up grow by one
  -- together, and the new entry is the last.
  pub push_counts :
      (q : LogQueue T) (value : T)
      → 0 < q.capacity
      → let r = push q value in
        (length r.0.entries + r.0.dropped ≡ length q.entries + q.dropped + 1)
        × ((front : List T) × (r.0.entries ≡ front ++ value ∷ []))
        × (r.1 ≡ not q.notification_pending)
  unfolding push
  push_counts q value h = (
    ground (
      arith,
      length-append (drop 1 q.entries) (value ∷ []),
      length-append q.entries (value ∷ []),
      length-drop 1 q.entries,
    ),
    (if leb q.capacity (length q.entries) then drop 1 q.entries else q.entries, refl),
    refl,
  )
