-- ===== src/Registry/Tests.antt =====
-- A process that is reported, hooked, and replaced by a newer one.
use proxy_lane.Common.{ℕ, ◌≡◌, refl, [], ◌∷◌, codes}
use proxy_lane.Registry.{state_succeeded, Identity, Records, find, insert, update}

abbrev hooked_process : Identity
hooked_process = record {
  process_id = 40;
  create_time = 1000;
  app_path = codes "a.exe";
  hook_state = state_succeeded;
  hook_error = 0;
}

abbrev one : Records
one = (40, hooked_process) ∷ []

abbrev newer : Identity
newer = record hooked_process { create_time = 2000 }

abbrev other : ℕ
other = 41

abbrev access_denied : ℕ
access_denied = 5

-- A failed retry does not undo the hook.
update-one : (update one 40 1000 access_denied).0 ≡ one
unfolding update find insert
update-one = refl

abbrev pid : ℕ
pid = 40

abbrev born : ℕ
born = 1000
