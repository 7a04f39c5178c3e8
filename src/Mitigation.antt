-- ===== src/Mitigation.antt =====
-- A child's signature policy, put off until the hook is in: src/ProxyLaneHook/DeferredMitigationPolicy.h.
-- The policy is a DWORD64 in the caller's memory. What Windows answers is a parameter: whether the
-- memory can be read and written, the environment, `wcstoul` and SetProcessMitigationPolicy.
pub mod Deferral
mod Tests
use proxy_lane.Common.{
  ℕ, zero, suc, ◌-◌, ◌*◌, ◌/◌, ◌%◌, ◌^◌, Bool, true, false, not, ◌&&◌, ◌||◌, Option, none, some,
  List, [], ◌∷◌, ltb, leb, ◌==◌, if◌then◌else◌, length,
}

-- PROC_THREAD_ATTRIBUTE_MITIGATION_POLICY.
abbrev pub mitigation_policy : ℕ
mitigation_policy = 0x0002_0007

abbrev pub policy_bytes : ℕ
policy_bytes = 8

-- CandidateAttributeEntry; the pointer is `none` if it is null.
pub record Entry : Type 0 where
  pub attribute : ℕ
  pub size : ℕ
  pub value : Option ℕ

-- PROC_THREAD_ATTRIBUTE_LIST: its flags, its count and the entries that can be read.
pub record AttributeList : Type 0 where
  pub flags : ℕ
  pub count : ℕ
  pub entries : List Entry

-- The loop over `count` entries; a read behind the readable ones ends it with NULL.
unfoldable pub find_entry : ℕ → List Entry → Option (ℕ × ℕ)
find_entry zero entries = none
find_entry (suc count) [] = none
find_entry (suc count) (e ∷ es) =
    let rest = find_entry count es in
    if e.attribute == mitigation_policy && leb policy_bytes e.size
    then elim e.value [ none ↦ rest | some address ↦ some (address, e.size) ]
    else rest

-- FindMitigationPolicyEntry: the policy's address and size. Bit 7 of the flags announces it.
unfoldable pub find_mitigation_policy_entry : Option AttributeList → Option (ℕ × ℕ)
unfolding find_entry
find_mitigation_policy_entry none = none
find_mitigation_policy_entry (some l) =
    if not (l.flags / 128 % 2 == 1) || l.count == 0 || ltb 64 l.count
    then none
    else find_entry l.count l.entries

-- The two bits of PROCESS_CREATION_MITIGATION_POLICY_BLOCK_NON_MICROSOFT_BINARIES_MASK.
abbrev pub cig : ℕ → ℕ
cig policy = policy / 2 ^ 44 % 4

abbrev pub always_on : ℕ
always_on = 1

abbrev pub allow_store : ℕ
allow_store = 3

-- `policy & ~MASK`.
abbrev pub without_cig : ℕ → ℕ
without_cig policy = policy - cig policy * 2 ^ 44

-- MicrosoftSignedOnly is bit 0 and StoreSignedOnly bit 1.
unfoldable pub signature_flags : ℕ → ℕ
signature_flags bits = if bits == always_on then 1 else if bits == allow_store then 3 else 1

pub record Memory : Type 0 where
  pub policy : ℕ
  pub readable : Bool
  pub writable : Bool

-- CScopedMitigationDeferral. `has_policy` says that the pointer is not null.
pub record Guard : Type 0 where
  pub has_policy : Bool
  pub policy_size : ℕ
  pub deferred : Bool
  pub original_policy : ℕ
  pub deferred_signature_flags : ℕ

-- The constructor.
unfoldable pub defer : Bool → ℕ → Memory → Guard × Memory
unfolding signature_flags
defer has_policy size m =
    let guarded : Guard = record {
      has_policy = has_policy;
      policy_size = size;
      deferred = false;
      original_policy = 0;
      deferred_signature_flags = 0;
    } in
    let g = if m.readable then record guarded { original_policy = m.policy } else guarded in
    if not (has_policy && leb policy_bytes size)
    then (guarded, m)
    else if not m.readable || cig m.policy == 0 || not m.writable
    then (g, m)
    else (
      record g { deferred = true; deferred_signature_flags = signature_flags (cig m.policy) },
      record m { policy = without_cig m.policy },
    )

-- Restore, which the destructor calls.
unfoldable pub restore : Guard → Memory → Guard × Memory
restore g m =
    if g.deferred && g.has_policy
    then (
      record g { deferred = false },
      if m.writable then record m { policy = g.original_policy } else m,
    )
    else (g, m)

-- What the child process finds: the variable of the environment, if it is set, and the policy that
-- SetProcessMitigationPolicy was given.
pub record Child : Type 0 where
  pub variable : Option (List ℕ)
  pub enforced : Option ℕ

module _ (wcstoul : List ℕ → ℕ) where
  -- GetDeferredCigFlagsFromEnvironment. The buffer has 16 characters.
  unfoldable pub get_deferred_cig_flags : Option (List ℕ) → Option ℕ
  get_deferred_cig_flags none = none
  get_deferred_cig_flags (some text) =
      let flags = wcstoul text % 2 ^ 32 in
      if length text == 0 || leb 16 (length text)
      then none
      else if flags == 0
      then none
      else some flags

  -- RestoreCigPolicy; `sets` is none where the system has no such function, and else its answer.
  unfoldable pub restore_cig_policy : Option Bool → Child → Child × Bool
  unfolding get_deferred_cig_flags
  restore_cig_policy sets c = elim (get_deferred_cig_flags c.variable) [
    | none ↦ (c, false)
    | some flags ↦ elim sets [
      | none ↦ (record c { variable = none }, false)
      | some answer ↦ (
        record c { variable = none; enforced = if answer then some flags else c.enforced },
        answer,
      )
    ]
  ]
