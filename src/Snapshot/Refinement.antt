-- ===== src/Snapshot/Refinement.antt =====
-- What src/ProxyLane/AsyncSnapshot.h promises: one query at a time, and no result of a query that was
-- cancelled.
use proxy_lane.Common.{
  refl, ap, ◌∙◌, ℕ, zero, suc, ◌+◌, ◌^◌, ◌≤◌, ◌<◌, ◌≡◌, Bool, true, false, Option, none, some, List,
  [], ◌∷◌, arith, ◌==◌, if◌then◌else◌,
}
use proxy_lane.Snapshot.{
  new_snapshot, run, State, Operation, request, fail, finish, take_result, cancel, Reply, asked,
  taken, silent, step,
}

-- The abstract view: no query, one whose result is wanted, one that was cancelled and has not ended,
-- or a result.
pub data Phase (V : Type 0) : Type 0 where
  idle : Phase V
  asking : Phase V
  dropped : Phase V
  done : V → Phase V

module _ {V : Type 0} where
  abbrev pub ended : Option V → Phase V
  ended none = idle
  ended (some v) = done v

  abbrev pub ask : Phase V → Phase V × Reply V
  ask idle = (asking, asked true)
  ask p = (p, asked false)

  -- The one thread there is has the number zero.
  abbrev pub end_query : Option V → ℕ → Phase V → Phase V
  end_query result zero asking = ended result
  end_query result zero dropped = idle
  end_query result i p = p

  abbrev pub take_phase : Phase V → Phase V × Reply V
  take_phase (done v) = (idle, taken (some v))
  take_phase p = (p, taken none)

  abbrev pub cancel_phase : Phase V → Phase V
  cancel_phase idle = idle
  cancel_phase asking = dropped
  cancel_phase dropped = dropped
  cancel_phase (done v) = idle

  pub abstract_step : Operation V → Phase V → Phase V × Reply V
  abstract_step request p = ask p
  abstract_step (fail i) p = (end_query none i p, silent)
  abstract_step (finish i result) p = (end_query result i p, silent)
  abstract_step take_result p = take_phase p
  abstract_step cancel p = (cancel_phase p, silent)

  pub abstract_run : List (Operation V) → Phase V → Phase V × List (Reply V)
  unfolding abstract_step
  abstract_run [] p = (p, [])
  abstract_run (o ∷ operations) p =
      let rest = abstract_run operations (abstract_step o p).0 in
      (rest.0, (abstract_step o p).1 ∷ rest.1)

  abbrev view : ℕ → List ℕ → Option V → Phase V
  view generation [] ready = ended ready
  view generation (g ∷ rest) ready = if g == generation then asking else dropped

  -- The phase that a state stands for.
  pub phase : State V → Phase V
  phase s = view s.generation s.flights s.ready

  abbrev OneFlight : ℕ → Bool → List ℕ → Option V → Type 0
  OneFlight n busy [] ready = busy ≡ false
  OneFlight n busy (g ∷ rest) ready = (busy ≡ true) × (rest ≡ []) × (g ≤ n) × (ready ≡ none)

  -- After so many cancellations.
  record IsValid (n : ℕ) (s : State V) : Type 0 where
    pub counted : s.generation ≡ n
    pub flight : OneFlight n s.busy s.flights s.ready

  abbrev cancels_of : Operation V → ℕ
  cancels_of cancel = 1
  cancels_of _ = 0

  unfoldable pub cancels : List (Operation V) → ℕ
  cancels [] = 0
  cancels (o ∷ operations) = cancels_of o + cancels operations

  step_refines :
      (o : Operation V) (n : ℕ) (busy : Bool) (generation : ℕ) (ready : Option V) (flights : List ℕ)
      → n + 1 < 2 ^ 64
      → let s : State V = record {
        busy = busy;
        generation = generation;
        ready = ready;
        flights = flights;
      } in
        IsValid n s
        → IsValid (cancels_of o + n) (step o s).0
          × (phase (step o s).0 ≡ (abstract_step o (phase s)).0)
          × ((step o s).1 ≡ (abstract_step o (phase s)).1)
  unfolding step abstract_step phase
  step_refines request n busy generation none [] b v = ground (arith, v)
  step_refines request n busy generation (some r) [] b v = ground (arith, v)
  step_refines request n busy generation ready (g ∷ rest) b v = ground (arith, v)
  step_refines (fail i) n busy generation ready [] b v = ground (arith, v)
  step_refines (fail zero) n busy generation ready (g ∷ rest) b v = ground (arith, v)
  step_refines (fail (suc i)) n busy generation ready (g ∷ []) b v = ground (arith, v)
  step_refines (fail (suc i)) n busy generation ready (g ∷ h ∷ rest) b v =
      absurd (ground (arith, v))
  step_refines (finish i result) n busy generation ready [] b v = ground (arith, v)
  step_refines (finish zero none) n busy generation ready (g ∷ rest) b v = ground (arith, v)
  step_refines (finish zero (some r)) n busy generation ready (g ∷ rest) b v = ground (arith, v)
  step_refines (finish (suc i) result) n busy generation ready (g ∷ []) b v = ground (arith, v)
  step_refines (finish (suc i) result) n busy generation ready (g ∷ h ∷ rest) b v =
      absurd (ground (arith, v))
  step_refines take_result n busy generation none [] b v = ground (arith, v)
  step_refines take_result n busy generation (some r) [] b v = ground (arith, v)
  step_refines take_result n busy generation ready (g ∷ rest) b v = ground (arith, v)
  step_refines cancel n busy generation none [] b v = ground (arith, v)
  step_refines cancel n busy generation (some r) [] b v = ground (arith, v)
  step_refines cancel n busy generation ready (g ∷ rest) b v = ground (arith, v)

  run_refines :
      (operations : List (Operation V)) (n : ℕ) (s : State V)
      → cancels operations + n + 1 < 2 ^ 64
      → IsValid n s
      → ((run operations s).1 ≡ (abstract_run operations (phase s)).1)
        × (phase (run operations s).0 ≡ (abstract_run operations (phase s)).0)
  unfolding run abstract_run cancels
  run_refines [] n s b v = (refl, refl)
  run_refines (o ∷ operations) n s b v =
      let (valid, p, r) =
        step_refines o n s.busy s.generation s.ready s.flights (omega (arith, b)) v in
      let rest = run_refines operations (cancels_of o + n) (step o s).0 (omega (arith, b)) valid in
      (
        ap (λ x. x ∷ (run operations (step o s).0).1) r
            ∙ ap (◌∷◌ (abstract_step o (phase s)).1)
                (rest.0 ∙ ap (λ q. (abstract_run operations q).1) p),
        rest.1 ∙ ap (λ q. (abstract_run operations q).0) p,
      )

  -- Whatever the order in which the requests, the threads, the readers and the cancellations come to
  -- the mutex: for fewer than 2^64 - 1 cancellations a new snapshot answers each call as the abstract
  -- query does, which has one query at a time and forgets the result of a cancelled one, and it
  -- always stands for the phase that the abstract query is in.
  pub run-new_snapshot_refines :
      (operations : List (Operation V))
      → cancels operations + 1 < 2 ^ 64
      → ((run operations new_snapshot).1 ≡ (abstract_run operations idle).1)
        × (phase (run operations new_snapshot).0 ≡ (abstract_run operations idle).0)
  unfolding new_snapshot phase
  run-new_snapshot_refines operations b =
      run_refines operations 0 new_snapshot (omega (arith, b))
        (record { counted = refl; flight = refl })
