-- ===== src/Mitigation/Deferral.antt =====
-- The guard of src/ProxyLaneHook/DeferredMitigationPolicy.h around the creation of a child.
use proxy_lane.Common.{ℕ, ◌<◌, ◌≡◌, ◌↔◌, ◌⊎◌, Bool, true, false, Option, none, List, arith}
use proxy_lane.Mitigation.{
  policy_bytes, cig, Memory, Child, defer, get_deferred_cig_flags, restore_cig_policy,
  signature_flags,
}

-- A policy without signature bits, a null pointer, a short attribute or memory that faults leaves the
-- caller's memory as it was, and nothing to put back.
pub defer_nothing :
    (has_policy : Bool) (size : ℕ) (m : Memory)
    → let d = defer has_policy size m in
      (d.0.deferred ≡ false) ↔ (
        (has_policy ≡ false)
        ⊎ ((size < policy_bytes)
            ⊎ ((m.readable ≡ false) ⊎ ((cig m.policy ≡ 0) ⊎ (m.writable ≡ false)))))
unfolding defer signature_flags
defer_nothing has_policy size m = ground arith

-- A child that finds the variable removes it before it asks for the policy, so that no process of its
-- own inherits it, and a policy that is set is the one that the variable holds.
pub restore_cig_policy_lem :
    (wcstoul : List ℕ → ℕ) (sets : Option Bool) (c : Child)
    → let r = restore_cig_policy wcstoul sets c in
      ((r.0.variable ≡ none) ⊎ (get_deferred_cig_flags wcstoul r.0.variable ≡ none))
      × (r.1 ≡ true → r.0.enforced ≡ get_deferred_cig_flags wcstoul c.variable)
unfolding restore_cig_policy
restore_cig_policy_lem wcstoul sets c = ground arith
