-- ===== src/Mitigation/Tests.antt =====
-- A caller that asks for signed binaries, and the child that it starts.
use proxy_lane.Common.{ℕ, ◌+◌, ◌-◌, ◌^◌, ◌≡◌, refl, true, none, some, List, [], ◌∷◌, get_or, codes}
use proxy_lane.Mitigation.{
  Memory, Child, defer, AttributeList, mitigation_policy, find_mitigation_policy_entry, find_entry,
}

-- Bit 44 and bit 0.
abbrev memory : Memory
memory = record { policy = 2 ^ 44 + 1; readable = true; writable = true }

defer-memory : (defer true 8 memory).1.policy ≡ 1
unfolding defer
defer-memory = refl

abbrev attributes : AttributeList
attributes = record {
  flags = 128;
  count = 2;
  entries =
      record { attribute = 5; size = 8; value = some 1 }
      ∷ record { attribute = mitigation_policy; size = 16; value = some 4096 }
      ∷ [];
}

find-attributes : find_mitigation_policy_entry (some attributes) ≡ some (4096, 16)
unfolding find_mitigation_policy_entry find_entry
find-attributes = refl

abbrev first_digit : List ℕ → ℕ
first_digit text = get_or text 0 0 - 48

abbrev child : Child
child = record { variable = some (codes "3"); enforced = none }
