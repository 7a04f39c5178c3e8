-- ===== src/Registry/History.antt =====
-- What a report changes in the registry of src/ProxyLaneHook/ProcessRegistry.h, and what it leaves.
use proxy_lane.Common.{ℕ, ◌-◌, ◌≤◌, ◌≡◌, ◌≢◌, true, false, some, [], ◌∷◌, arith, take}
use proxy_lane.Registry.{
  Identity, has_succeeded, Records, find, insert, entry_or, restarted, register, max_path,
}

find-insert_same : (rs : Records) (pid : ℕ) (e : Identity) → find (insert rs pid e) pid ≡ some e
unfolding find insert
find-insert_same [] pid e = ground arith
find-insert_same (r ∷ rs) pid e = ground (arith, find-insert_same rs pid e)

find-insert_other :
    (rs : Records) (pid other : ℕ) (e : Identity)
    → other ≢ pid
    → find (insert rs pid e) other ≡ find rs other
unfolding find insert
find-insert_other [] pid other e h = ground arith
find-insert_other (r ∷ rs) pid other e h = ground (arith, find-insert_other rs pid other e h)

-- A path report for a known process keeps its hook result, and one for a newer process of the same
-- PID starts without a result; the other processes keep theirs.
pub register_lem :
    (rs : Records) (identity : Identity) (other : ℕ)
    → let r = register rs (some identity) in
      let before = entry_or (find rs identity.process_id) in
      let after = entry_or (find r.0 identity.process_id) in
      (other ≢ identity.process_id → find r.0 other ≡ find rs other)
      × (r.1 ≡ true
          → (after.create_time ≡ identity.create_time)
            × (before.create_time ≤ identity.create_time)
            × (after.app_path ≡ take (max_path - 1) identity.app_path)
            × (before.create_time ≡ identity.create_time → after.hook_state ≡ before.hook_state)
            × (before.create_time ≢ identity.create_time → has_succeeded after.hook_state ≡ false))
      × (r.1 ≡ false → r.0 ≡ rs)
unfolding register
register_lem rs identity other =
    let pid = identity.process_id in
    let e : Identity = record (restarted (entry_or (find rs pid)) pid identity.create_time) {
      app_path = take (max_path - 1) identity.app_path;
    } in
    ground (arith, find-insert_same rs pid e, find-insert_other rs pid other e)
