-- ===== src/Termination/Identity.antt =====
-- Which processes src/ProxyLane/ProcessActions.h ends, and what its errors say.
use mathlib.Core.Path.{sym, subst}
use proxy_lane.Common.{
  if◌then◌else◌, List, [], ◌∷◌, sym, ◌∙◌, ap, Bool, not, map, All, true, ◌||◌, Option, false, ℕ,
  ◌≡◌, refl, ◌≢◌, ◌⊎◌, inl, inr, none, some, arith, ◌==◌, Bool-cases,
}
use proxy_lane.Termination.Found.{
  MayEnd, open_for_termination-MayEnd, IsUnopened, IsReplaced, IsSignalled, IsUnknown,
  open_for_termination-IsAbsence,
}
use proxy_lane.Termination.{
  wait_row, end_row, terminate_exact_processes, exited, cancelled, timed_out, wait_error, remaining,
  Waited, end_handle, is_exited, wait_handle, TerminationTarget, Handle, Opening,
  open_for_termination, wait_failed, Answers, Row, new_row, interrupted, opened_row, open_row,
  error_not_found, error_invalid_parameter,
}

-- Windows gives an error wherever it fails.
pub record GivesErrors (a : Answers) : Type 0 where
  pub open_error : a.opening.open_error ≢ 0
  pub wait_error : (time error : ℕ) → a.waited time ≡ wait_failed error → error ≢ 0

-- What is right of a row behind the first loop: its handle may be ended; without an error and
-- without a handle the process was found gone.
record IsOpened (self : ℕ) (r : Row) : Type 0 where
  pub may_end : (h : Handle) → r.handle ≡ some h → MayEnd self r.target r.answers.opening h
  pub not_ended : r.ended ≡ none
  pub settled :
      r.handle ≡ none
      → r.error ≡ 0
      → (open_for_termination self r.target r.answers.opening ≡ inl error_not_found)
        ⊎ (open_for_termination self r.target r.answers.opening ≡ inl error_invalid_parameter)

-- Where OpenForTermination fails it leaves an error.
open_for_termination-error :
    (self : ℕ) (target : TerminationTarget) (o : Opening)
    → o.open_error ≢ 0
    → open_for_termination self target o ≢ inl 0
unfolding open_for_termination
open_for_termination-error self target o h e = ground (arith, h, e)

opened_row-IsOpened :
    (self : ℕ) (t : TerminationTarget) (a : Answers) (result : ℕ ⊎ Handle)
    → a.opening.open_error ≢ 0
    → open_for_termination self t a.opening ≡ result
    → IsOpened self (opened_row (new_row (t, a)) result)
opened_row-IsOpened self t a (inl error) g e = record {
  may_end = λ h n. absurd (cc);
  not_ended = refl;
  settled = λ n z. elim (Bool-cases (error == error_not_found)) [
    | inl b ↦ inl (e ∙ ap inl (ground (arith, b)))
    | inr b ↦ elim (Bool-cases (error == error_invalid_parameter)) [
      | inl c ↦ inr (e ∙ ap inl (ground (arith, c)))
      | inr c ↦
          absurd
            (open_for_termination-error self t a.opening g (e ∙ ap inl (ground (arith, b, c, z))))
    ]
  ];
}
opened_row-IsOpened self t a (inr handle) g e = record {
  may_end = λ h n. open_for_termination-MayEnd self t a.opening h (e ∙ ap inr (ground (arith, n)));
  not_ended = refl;
  settled = λ n z. absurd (cc);
}

open_row-IsOpened :
    (self started wait_ms : ℕ) (t : TerminationTarget) (a : Answers)
    → a.opening.open_error ≢ 0
    → IsOpened self (open_row self started wait_ms (new_row (t, a)))
open_row-IsOpened self started wait_ms t a g =
    let stop = interrupted started wait_ms a.cancelled_open a.now_open in
    let o = opened_row-IsOpened self t a (open_for_termination self t a.opening) g refl in
    elim (Bool-cases (stop == 0)) [
      | inl e ↦ unfold open_row in rw e o
      | inr e ↦
          unfold open_row in
          rw e (record {
            may_end = λ h n. absurd (cc);
            not_ended = refl;
            settled = λ n z. absurd (ground (arith, e, z));
          })
    ]

-- The same behind the second loop.
record IsEnded (self : ℕ) (r : Row) : Type 0 where
  pub may_end : (h : Handle) → r.ended ≡ some h → MayEnd self r.target r.answers.opening h
  pub settled :
      r.handle ≡ none
      → r.error ≡ 0
      → (open_for_termination self r.target r.answers.opening ≡ inl error_not_found)
        ⊎ (open_for_termination self r.target r.answers.opening ≡ inl error_invalid_parameter)

end_handle-IsEnded :
    (self started wait_ms : ℕ) (r : Row) (o : Option Handle)
    → r.handle ≡ o
    → IsOpened self r
    → IsEnded self (end_handle started wait_ms r o)
unfolding end_handle
end_handle-IsEnded self started wait_ms r none e v = record {
  may_end = λ h n. absurd (ground (arith, v.not_ended, n));
  settled = v.settled;
}
end_handle-IsEnded self started wait_ms r (some handle) e v =
    let stop = interrupted started wait_ms r.answers.cancelled_end r.answers.now_end in
    let skip = r.answers.exiting || r.answers.signalled in
    elim (Bool-cases (stop == 0)) [
      | inr s ↦ rw s (record {
        may_end = λ h n. absurd (ground (arith, v.not_ended, n));
        settled = λ n z. absurd (ground (arith, e, n));
      })
      | inl s ↦ elim (Bool-cases skip) [
        | inl k ↦
            rw (s, k)
              (record {
                may_end = λ h n. absurd (ground (arith, v.not_ended, n));
                settled = λ n z. absurd (ground (arith, e, n));
              })
        | inr k ↦
            rw (s, k)
              (record {
                may_end = λ h n. v.may_end h (e ∙ n);
                settled = λ n z. absurd (ground (arith, e, n));
              })
      ]
    ]

-- The process is gone: there is none of its number, another has it, or its handle is signalled, at
-- the first look or after the wait.
pub IsGone : ℕ → ℕ → Row → Type 0
IsGone started wait_ms r =
    IsUnopened r.answers.opening
    ⊎ IsReplaced r.target r.answers.opening
    ⊎ IsSignalled r.target r.answers.opening
    ⊎ (is_exited (r.answers.waited (remaining started wait_ms r.answers.now_wait)) ≡ true)

pub record IsRight (self started wait_ms : ℕ) (r : Row) : Type 0 where
  pub may_end : (h : Handle) → r.ended ≡ some h → MayEnd self r.target r.answers.opening h
  pub gone : r.error ≡ 0 → IsGone started wait_ms r ⊎ IsUnknown r.target r.answers.opening

to_gone :
    (started wait_ms : ℕ) (r : Row)
    → (IsUnopened r.answers.opening
        ⊎ IsReplaced r.target r.answers.opening
        ⊎ IsSignalled r.target r.answers.opening)
      ⊎ IsUnknown r.target r.answers.opening
    → IsGone started wait_ms r ⊎ IsUnknown r.target r.answers.opening
unfolding IsGone
to_gone started wait_ms r (inl (inl u)) = inl (inl u)
to_gone started wait_ms r (inl (inr (inl u))) = inl (inr (inl u))
to_gone started wait_ms r (inl (inr (inr u))) = inl (inr (inr (inl u)))
to_gone started wait_ms r (inr u) = inr u

not_found :
    (self started wait_ms : ℕ) (r : Row)
    → (open_for_termination self r.target r.answers.opening ≡ inl error_not_found)
      ⊎ (open_for_termination self r.target r.answers.opening ≡ inl error_invalid_parameter)
    → IsGone started wait_ms r ⊎ IsUnknown r.target r.answers.opening
not_found self started wait_ms r (inl n) =
    to_gone started wait_ms r
      (open_for_termination-IsAbsence self r.target r.answers.opening error_not_found n (inl refl))
not_found self started wait_ms r (inr n) = to_gone started wait_ms r (
    open_for_termination-IsAbsence self r.target r.answers.opening error_invalid_parameter n
      (inr refl))

wait_error-nonzero :
    (w : Waited)
    → is_exited w ≡ false
    → ((error : ℕ) → w ≡ wait_failed error → error ≢ 0)
    → wait_error w ≢ 0
wait_error-nonzero exited x h e = absurd (cc)
wait_error-nonzero cancelled x h e = absurd (omega (arith, e))
wait_error-nonzero timed_out x h e = absurd (omega (arith, e))
wait_error-nonzero (wait_failed error) x h e = h error refl e

wait_handle-IsRight :
    (self started wait_ms : ℕ) (r : Row) (o : Option Handle)
    → r.handle ≡ o
    → GivesErrors r.answers
    → IsEnded self r
    → IsRight self started wait_ms (wait_handle started wait_ms r o)
unfolding wait_handle IsGone
wait_handle-IsRight self started wait_ms r none e g v = record {
  may_end = v.may_end;
  gone = λ z. not_found self started wait_ms r (v.settled e z);
}
wait_handle-IsRight self started wait_ms r (some handle) e g v =
    let time = remaining started wait_ms r.answers.now_wait in
    let w = r.answers.waited time in
    elim (Bool-cases (is_exited w)) [
      | inl x ↦ rw x (record { may_end = v.may_end; gone = λ z. inl (inr (inr (inr x))) })
      | inr x ↦ elim (Bool-cases (r.error == 0)) [
        | inl z ↦
            rw (x, z)
              (record {
                may_end = v.may_end;
                gone = λ n. absurd (wait_error-nonzero w x (g.wait_error time) n);
              })
        | inr z ↦
            rw (x, z) (record { may_end = v.may_end; gone = λ n. absurd (ground (arith, z, n)) })
      ]
    ]

-- A row stays at its target and its answers.
Kept : TerminationTarget → Answers → Row → Type 0
Kept t a r = (r.target ≡ t) × (r.answers ≡ a)

opened_row-Kept :
    (t : TerminationTarget) (a : Answers) (result : ℕ ⊎ Handle)
    → Kept t a (opened_row (new_row (t, a)) result)
unfolding Kept
opened_row-Kept t a (inl error) = (refl, refl)
opened_row-Kept t a (inr handle) = (refl, refl)

Kept-if :
    (t : TerminationTarget) (a : Answers) (b : Bool) (r s : Row)
    → Kept t a r
    → Kept t a s
    → Kept t a (if b then r else s)
Kept-if t a true r s k l = k
Kept-if t a false r s k l = l

open_row-Kept :
    (self started wait_ms : ℕ) (t : TerminationTarget) (a : Answers)
    → Kept t a (open_row self started wait_ms (new_row (t, a)))
open_row-Kept self started wait_ms t a =
    let stop = interrupted started wait_ms a.cancelled_open a.now_open in
    let r = new_row (t, a) in
    let o = opened_row r (open_for_termination self t a.opening) in
    unfold open_row in
    Kept-if t a (not (stop == 0)) (record r { error = stop }) o (unfold Kept in (refl, refl))
      (opened_row-Kept t a (open_for_termination self t a.opening))

end_handle-Kept :
    (started wait_ms : ℕ) (t : TerminationTarget) (a : Answers) (r : Row) (o : Option Handle)
    → Kept t a r
    → Kept t a (end_handle started wait_ms r o)
unfolding end_handle Kept
end_handle-Kept started wait_ms t a r none k = k
end_handle-Kept started wait_ms t a r (some handle) k = ground (arith, k)

wait_handle-Kept :
    (started wait_ms : ℕ) (t : TerminationTarget) (a : Answers) (r : Row) (o : Option Handle)
    → Kept t a r
    → Kept t a (wait_handle started wait_ms r o)
unfolding wait_handle Kept
wait_handle-Kept started wait_ms t a r none k = k
wait_handle-Kept started wait_ms t a r (some handle) k = ground (arith, k)

row_lem :
    (self started wait_ms : ℕ) (t : TerminationTarget) (a : Answers)
    → GivesErrors a
    → let r =
        wait_row started wait_ms
          (end_row started wait_ms (open_row self started wait_ms (new_row (t, a)))) in
      IsRight self started wait_ms r × Kept t a r
unfolding end_row wait_row
row_lem self started wait_ms t a g =
    let r0 : Row = open_row self started wait_ms (new_row (t, a)) in
    let r1 : Row = end_handle started wait_ms r0 r0.handle in
    let k0 = open_row-Kept self started wait_ms t a in
    let k1 = end_handle-Kept started wait_ms t a r0 r0.handle k0 in
    let v0 = open_row-IsOpened self started wait_ms t a g.open_error in
    let v1 = end_handle-IsEnded self started wait_ms r0 r0.handle refl v0 in
    let same : r1.answers ≡ a = unfold Kept in k1.1 in
    let g1 : GivesErrors r1.answers = subst GivesErrors (sym same) g in
    (
      wait_handle-IsRight self started wait_ms r1 r1.handle refl g1 v1,
      wait_handle-Kept started wait_ms t a r1 r1.handle k1,
    )

-- Of the chosen processes in their order: TerminateProcess is called only with a handle on the
-- target's own lifetime, where the process is neither a system process nor this one nor known as
-- critical, so that a process that has taken over its number is never ended. An error of zero means
-- that the process is gone: OpenProcess or the snapshot says that there is none, its number is that
-- of a process made at another time, or its handle is signalled, then or after the wait; or else that
-- a query on the opened process failed with an error that the code takes for its absence. Windows is
-- taken to give an error where OpenProcess or the wait fails.
pub terminate_exact_processes-IsRight :
    (self started wait_ms : ℕ) (targets : List (TerminationTarget × Answers))
    → All (λ e. GivesErrors e.1) targets
    → let rows = terminate_exact_processes self started wait_ms targets in
      All (IsRight self started wait_ms) rows × (map (λ r. (r.target, r.answers)) rows ≡ targets)
unfolding terminate_exact_processes
terminate_exact_processes-IsRight self started wait_ms [] g = (tt, refl)
terminate_exact_processes-IsRight self started wait_ms ((t, a) ∷ targets) g =
    let (right, kept) = row_lem self started wait_ms t a g.0 in
    let rest = terminate_exact_processes-IsRight self started wait_ms targets g.1 in
    let r : Row =
      wait_row started wait_ms
        (end_row started wait_ms (open_row self started wait_ms (new_row (t, a)))) in
    let same_target : r.target ≡ t = unfold Kept in kept.0 in
    let same_answers : r.answers ≡ a = unfold Kept in kept.1 in
    ((right, rest.0), λ i. (same_target i, same_answers i) ∷ rest.1 i)
