-- ===== src/Udp/Capability/Breaker.antt =====
-- The circuit of src/ProxyLaneHook/UdpAssociationPolicy.h over any history of calls.
use proxy_lane.Common.{
  ◌≢◌, ℕ, ◌+◌, ◌^◌, ◌≤◌, ◌<◌, ◌≡◌, refl, Bool, true, false, List, [], ◌∷◌, arith, IsDword, add32,
}
use proxy_lane.Udp.Capability.{
  reset, CapabilityState, unknown, supported, unsupported, temporarily_unavailable,
  CapabilityCircuit, can_attempt, report_failure, report_success, threshold, cooldown,
}

-- Failures in a row that no success and no lifted block has cleared are below the threshold exactly
-- while the circuit lets attempts through.
abbrev pub Counted : CapabilityState → ℕ → Type 0
Counted unknown n = n < threshold
Counted supported n = n ≡ 0
Counted unsupported n = Unit {0}
Counted temporarily_unavailable n = threshold ≤ n

pub data Call : Type 0 where
  attempt : ℕ → Call
  failure : ℕ → Bool → Call
  success : Call

pub step : CapabilityCircuit → Call → CapabilityCircuit
unfolding can_attempt report_failure report_success
step c (attempt now) = (can_attempt c now).0
step c (failure now permanent) = (report_failure c now permanent).0
step c success = report_success c

pub run : CapabilityCircuit → List Call → CapabilityCircuit
run c [] = c
run c (x ∷ xs) = run (step c x) xs

step-Counted :
    (c : CapabilityCircuit) (x : Call)
    → Counted c.state c.consecutive_failures
    → Counted (step c x).state (step c x).consecutive_failures
unfolding step
step-Counted c (attempt now) h = ground arith
step-Counted c (failure now permanent) h = ground arith
step-Counted c success h = refl

-- Within the cooldown of the failure that opened it, the circuit refuses; from its end on, for the
-- next 2^31 ms, it lets an attempt through with a clear count. The ticks may wrap.
pub reopens :
    (c : CapabilityCircuit) (opened d : ℕ)
    → IsDword opened
    → c.state ≡ temporarily_unavailable
    → c.blocked_until ≡ add32 opened cooldown
    → (d < cooldown → can_attempt c (add32 opened d) ≡ (c, false))
      × (cooldown ≤ d
          → d < cooldown + 2 ^ 31
          → can_attempt c (add32 opened d)
            ≡ (record c { state = unknown; consecutive_failures = 0; blocked_until = 0 }, true))
unfolding can_attempt
reopens c opened d ho hs hb = (λ before. ground arith, λ after within. ground arith)

run-Counted :
    (c : CapabilityCircuit) (xs : List Call)
    → Counted c.state c.consecutive_failures
    → Counted (run c xs).state (run c xs).consecutive_failures
unfolding run
run-Counted c [] h = h
run-Counted c (x ∷ xs) h = run-Counted (step c x) xs (step-Counted c x h)

-- After any history from `reset` the failure count fits the state: below the threshold while
-- unknown, zero while supported, at least the threshold while temporarily unavailable.
pub run-reset-Counted :
    (xs : List Call) → Counted (run reset xs).state (run reset xs).consecutive_failures
unfolding reset
run-reset-Counted xs = run-Counted reset xs (omega arith)

-- The third transient failure in a row opens the circuit, and no earlier one does.
pub third_failure_opens :
    (c : CapabilityCircuit) (t1 t2 t3 : ℕ)
    → c.state ≢ unsupported
    → c.consecutive_failures ≡ 0
    → let first = report_failure c t1 false in
      let second = report_failure first.0 t2 false in
      let third = report_failure second.0 t3 false in
      (first.1 ≡ false)
      × (second.1 ≡ false)
      × ((can_attempt second.0 t3).1 ≡ true)
      × (third.1 ≡ true)
      × (third.0.state ≡ temporarily_unavailable)
      × (third.0.blocked_until ≡ add32 t3 cooldown)
unfolding report_failure can_attempt
third_failure_opens c t1 t2 t3 hs hn = ground arith

abbrev pub NoSuccess : List Call → Type 0
NoSuccess [] = Unit {0}
NoSuccess (success ∷ xs) = ⊥
NoSuccess (attempt now ∷ xs) = NoSuccess xs
NoSuccess (failure now permanent ∷ xs) = NoSuccess xs

run-unsupported :
    (c : CapabilityCircuit) (xs : List Call)
    → NoSuccess xs
    → c.state ≡ unsupported
    → (run c xs).state ≡ unsupported
unfolding run step
run-unsupported c [] h e = e
run-unsupported c (success ∷ xs) h e = absurd h
run-unsupported c (attempt now ∷ xs) h e = run-unsupported (can_attempt c now).0 xs h (ground arith)
run-unsupported c (failure now permanent ∷ xs) h e =
    run-unsupported (report_failure c now permanent).0 xs h (ground arith)

refuses : (c : CapabilityCircuit) (now : ℕ) → c.state ≡ unsupported → (can_attempt c now).1 ≡ false
unfolding can_attempt
refuses c now e = ground arith

-- A permanent failure blocks UDP through every later attempt and failure; only a reported success
-- ends it.
permanent_failure_lasts :
    (c : CapabilityCircuit) (t now : ℕ) (xs : List Call)
    → NoSuccess xs
    → let c' = run (report_failure c t true).0 xs in
      (c'.state ≡ unsupported) × ((can_attempt c' now).1 ≡ false)
permanent_failure_lasts c t now xs h =
    let blocked : (run (report_failure c t true).0 xs).state ≡ unsupported =
      run-unsupported (report_failure c t true).0 xs h (unfold report_failure in refl) in
    (blocked, refuses _ now blocked)
