-- ===== src/Termination/Found.antt =====
-- What a handle or an error of OpenForTermination, src/ProxyLane/ProcessActions.h, says about the
-- process.
use mathlib.Core.Path.{sym, subst}
use proxy_lane.Common.{
  ◌||◌, true, false, ℕ, ◌<◌, ◌≡◌, ◌≢◌, ◌⊎◌, inl, inr, none, arith, ◌==◌, Bool-cases,
}
use proxy_lane.Termination.{
  TerminationTarget, Handle, Opening, critical_test, open_for_termination, error_not_found,
  error_invalid_parameter,
}

-- The process may be ended: it is the target's own lifetime, not a system process, not this one, and
-- not known to be critical.
pub record MayEnd (self : ℕ) (target : TerminationTarget) (o : Opening) (h : Handle) : Type 0 where
  pub same_pid : h.pid ≡ target.pid
  pub same_time : h.creation_time ≡ target.creation_time
  pub has_time : target.creation_time ≢ 0
  pub no_system : 4 < target.pid
  pub not_self : target.pid ≢ self
  pub not_critical : critical_test o ≡ 0

pub open_for_termination-MayEnd :
    (self : ℕ) (target : TerminationTarget) (o : Opening) (h : Handle)
    → open_for_termination self target o ≡ inr h
    → MayEnd self target o h
unfolding open_for_termination
open_for_termination-MayEnd self target o h e = record {
  same_pid = ground (arith, e);
  same_time = ground (arith, e);
  has_time = λ z. ground (arith, e, z);
  no_system = ground (arith, e);
  not_self = λ z. ground (arith, e, z);
  not_critical = ground (arith, e);
}

-- The errors of Windows for a process that is not there.
abbrev pub IsAbsence : ℕ → Type 0
IsAbsence error = (error ≡ error_not_found) ⊎ (error ≡ error_invalid_parameter)

-- OpenProcess gives no handle, and either the snapshot shows the process's end or the error says that
-- it is not there.
pub record IsUnopened (o : Opening) : Type 0 where
  pub not_opened : (o.opened || o.opened_limited) ≡ false
  pub absent : (o.has_exited ≡ true) ⊎ IsAbsence o.open_error

-- The number is that of a process made at another time.
pub record IsReplaced (target : TerminationTarget) (o : Opening) : Type 0 where
  pub opened : (o.opened || o.opened_limited) ≡ true
  pub known : o.creation_time ≢ 0
  pub other : o.creation_time ≢ target.creation_time

-- The handle on the process is signalled.
pub record IsSignalled (target : TerminationTarget) (o : Opening) : Type 0 where
  pub opened : (o.opened || o.opened_limited) ≡ true
  pub same : o.creation_time ≡ target.creation_time
  pub ended : o.signalled ≡ true

-- The process was opened, and then GetProcessTimes or IsProcessCritical failed on it with one of the
-- two errors.
pub record IsUnknown (target : TerminationTarget) (o : Opening) : Type 0 where
  pub opened : (o.opened || o.opened_limited) ≡ true
  pub failed :
      ((o.creation_time ≡ 0) × IsAbsence o.time_error)
      ⊎ ((o.creation_time ≡ target.creation_time)
          × (o.signalled ≡ false)
          × (o.has_is_critical ≡ true)
          × (o.is_critical ≡ none)
          × IsAbsence o.critical_error)

critical_test-IsAbsence :
    (o : Opening) (error : ℕ)
    → critical_test o ≡ error
    → IsAbsence error
    → (o.has_is_critical ≡ true) × (o.is_critical ≡ none) × (o.critical_error ≡ error)
unfolding critical_test
critical_test-IsAbsence o error h a = ground (arith, h, a)

pub open_for_termination-IsAbsence :
    (self : ℕ) (target : TerminationTarget) (o : Opening) (error : ℕ)
    → open_for_termination self target o ≡ inl error
    → IsAbsence error
    → (IsUnopened o ⊎ IsReplaced target o ⊎ IsSignalled target o) ⊎ IsUnknown target o
unfolding open_for_termination
open_for_termination-IsAbsence self target o error h a =
    let critical = critical_test-IsAbsence o error in
    elim (Bool-cases (o.opened || o.opened_limited)) [
      | inr n ↦ inl (
          inl (record {
            not_opened = n;
            absent = elim (Bool-cases o.has_exited) [
              | inl x ↦ inl x
              | inr x ↦ inr (ground (arith, h, n, x, a))
            ];
          }))
      | inl y ↦ elim (Bool-cases (o.creation_time == 0)) [
        | inl z ↦
            inr
              (record { opened = y; failed = inl (ground (arith, z), ground (arith, h, y, z, a)) })
        | inr z ↦ elim (Bool-cases (o.creation_time == target.creation_time)) [
          | inr d ↦ inl (
              inr (
                inl (record {
                  opened = y;
                  known = λ q. ground (arith, z, q);
                  other = λ q. ground (arith, d, q);
                })))
          | inl d ↦ elim (Bool-cases o.signalled) [
            | inl s ↦ inl (inr (inr (record { opened = y; same = ground (arith, d); ended = s })))
            | inr s ↦
                let e : critical_test o ≡ error = ground (arith, h, y, z, d, s, a) in
                let (has, failed, same) = critical e a in
                inr (record {
                  opened = y;
                  failed = inr (ground (arith, d), s, has, failed, subst IsAbsence (sym same) a);
                })
          ]
        ]
      ]
    ]
