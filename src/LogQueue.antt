-- ===== src/LogQueue.antt =====
-- The bounded queue between the log's writers and the window: src/ProxyLane/BoundedLogQueue.h. Each
-- operation runs under the queue's mutex, so it is one step.
pub mod Order
mod Tests
use proxy_lane.Common.{
  ℕ, ◌+◌, Bool, true, false, not, ◌&&◌, List, [], ◌∷◌, ◌++◌, leb, if◌then◌else◌, length, take, drop,
}

pub record Batch (T : Type 0) : Type 0 where
  pub entries : List T
  pub dropped : ℕ
  pub has_more : Bool

pub record LogQueue (T : Type 0) : Type 0 where
  pub entries : List T
  pub capacity : ℕ
  pub batch_size : ℕ
  pub dropped : ℕ
  pub notification_pending : Bool

abbrev pub no_entries : {T : Type 0} → List T → Bool
no_entries [] = true
no_entries (x ∷ xs) = false

module _ {T : Type 0} where
  unfoldable pub new_queue : ℕ → ℕ → LogQueue T
  new_queue capacity batch_size = record {
    entries = [];
    capacity = capacity;
    batch_size = batch_size;
    dropped = 0;
    notification_pending = false;
  }

  -- The oldest entry goes where the queue is full. The result asks for a notification.
  unfoldable pub push : LogQueue T → T → LogQueue T × Bool
  push q value =
      let full = leb q.capacity (length q.entries) in
      (
        record q {
          entries = (if full then drop 1 q.entries else q.entries) ++ value ∷ [];
          dropped = if full then q.dropped + 1 else q.dropped;
          notification_pending = true;
        },
        not q.notification_pending,
      )

  unfoldable pub take_batch : LogQueue T → LogQueue T × Batch T
  take_batch q =
      let rest = drop q.batch_size q.entries in
      (
        record q {
          entries = rest;
          dropped = 0;
          notification_pending = not (no_entries rest) && q.notification_pending;
        },
        record {
          entries = take q.batch_size q.entries;
          dropped = q.dropped;
          has_more = not (no_entries rest);
        },
      )

  unfoldable pub on_notification_post_failed : LogQueue T → LogQueue T
  on_notification_post_failed q = record q { notification_pending = false }

  unfoldable pub clear_queue : LogQueue T → LogQueue T
  clear_queue q = record q { entries = []; dropped = 0; notification_pending = false }
