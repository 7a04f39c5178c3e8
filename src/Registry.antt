-- ===== src/Registry.antt =====
-- The hooked processes that the host knows: CProcessRegistry of src/ProxyLaneHook/ProcessRegistry.h.
-- The map is a list in ascending order of PIDs; each operation runs under the lock. The system's
-- process snapshot is a parameter.
pub mod History
mod Tests
use proxy_lane.Common.{
  ℕ, ◌-◌, Bool, true, false, not, ◌&&◌, ◌||◌, Option, none, some, List, [], ◌∷◌, ltb, ◌==◌,
  if◌then◌else◌, length, take,
}

pub data HookState : Type 0 where
  state_pending state_failed state_succeeded : HookState

pub record Identity : Type 0 where
  pub process_id : ℕ
  pub create_time : ℕ
  pub app_path : List ℕ
  pub hook_state : HookState
  pub hook_error : ℕ

abbrev pub max_path : ℕ
max_path = 260

-- A zeroed entry.
abbrev pub no_identity : Identity
no_identity = record {
  process_id = 0;
  create_time = 0;
  app_path = [];
  hook_state = state_pending;
  hook_error = 0;
}

abbrev pub has_succeeded : HookState → Bool
has_succeeded state_succeeded = true
has_succeeded _ = false

abbrev pub is_blank : List ℕ → Bool
is_blank [] = true
is_blank (c ∷ cs) = false

abbrev pub Records : Type 0
Records = List (ℕ × Identity)

unfoldable pub find : Records → ℕ → Option Identity
find [] pid = none
find (e ∷ es) pid = if e.0 == pid then some e.1 else find es pid

-- `m_processes[pid] = entry`, which keeps the order.
unfoldable pub insert : Records → ℕ → Identity → Records
insert [] pid entry = (pid, entry) ∷ []
insert (e ∷ es) pid entry =
    let rest = insert es pid entry in
    if e.0 == pid
    then (pid, entry) ∷ es
    else if ltb pid e.0
    then (pid, entry) ∷ e ∷ es
    else e ∷ rest

abbrev pub entry_or : Option Identity → Identity
entry_or none = no_identity
entry_or (some e) = e

-- The entry that `pid` has, restarted where it is of an older process.
abbrev pub restarted : Identity → ℕ → ℕ → Identity
restarted entry pid create_time =
    if entry.create_time == create_time
    then entry
    else record no_identity { process_id = pid; create_time = create_time }

-- A null identity is `none`. `m_processes[pid]` adds a zeroed entry, which no refusal follows.
unfoldable pub register : Records → Option Identity → Records × Bool
register rs none = (rs, false)
register rs (some identity) =
    let entry = entry_or (find rs identity.process_id) in
    if identity.process_id == 0 || identity.create_time == 0 || is_blank identity.app_path
    then (rs, false)
    else if ltb identity.create_time entry.create_time
    then (rs, false)
    else (
      insert rs identity.process_id
          (record (restarted entry identity.process_id identity.create_time) {
            app_path = take (max_path - 1) identity.app_path;
          }),
      true,
    )

abbrev pub with_result : Identity → ℕ → Identity
with_result e error = if has_succeeded e.hook_state then e else record e {
  hook_state = if error == 0 then state_succeeded else state_failed;
  hook_error = error;
}

unfoldable pub update : Records → ℕ → ℕ → ℕ → Records × Bool
update rs pid create_time error =
    let entry = entry_or (find rs pid) in
    if pid == 0 || create_time == 0
    then (rs, false)
    else if ltb create_time entry.create_time
    then (rs, false)
    else (insert rs pid (with_result (restarted entry pid create_time) error), true)

unfoldable pub get : Records → ℕ → ℕ → Option Identity
get rs pid create_time = elim (find rs pid) [
  | none ↦ none
  | some e ↦
      if pid == 0 || (not (create_time == 0) && not (e.create_time == create_time))
      then none
      else some e
]

unfoldable pub erase : Records → ℕ → Records
erase [] pid = []
erase (e ∷ es) pid = let rest = erase es pid in if e.0 == pid then es else e ∷ rest

-- One pass of the loop of PruneExited: the entry of the snapshot has exited, and goes unless the
-- PID has been registered again.
unfoldable pub prune : Records → ℕ × Identity → Records
prune rs gone = elim (find rs gone.0) [
  | none ↦ rs
  | some current ↦ if current.create_time == gone.1.create_time then erase rs gone.0 else rs
]

unfoldable pub hooked : Records → List Identity
hooked [] = []
hooked (e ∷ es) = let rest = hooked es in if has_succeeded e.1.hook_state then e.1 ∷ rest else rest

-- SnapshotHooked: the number of hooked processes, and the entries it writes; a null array is `none`.
unfoldable pub snapshot_hooked : Records → Option ℕ → ℕ × List Identity
unfolding hooked
snapshot_hooked rs capacity =
    let found = hooked rs in
    (
      length found,
      elim capacity [ none ↦ [] | some room ↦ if ltb room (length found) then [] else found ],
    )
