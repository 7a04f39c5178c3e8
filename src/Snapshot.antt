-- ===== src/Snapshot.antt =====
-- A query in a thread of its own with one result, src/ProxyLane/AsyncSnapshot.h. Each operation is a
-- critical section of the mutex; `V` is a result with its fields. The reply to a request is what its
-- first section decides: where `fail` follows, Request returns false after all. Busy only reads.
pub mod Refinement
mod Tests
use proxy_lane.Common.{
  ℕ, zero, suc, ◌+◌, ◌%◌, ◌^◌, Bool, true, false, ◌||◌, Option, none, some, List, [], ◌∷◌, ◌==◌,
  if◌then◌else◌,
}

-- `flights` lists the generations that the requests and their threads hold, until each has ended.
pub record State (V : Type 0) : Type 0 where
  pub busy : Bool
  pub generation : ℕ
  pub ready : Option V
  pub flights : List ℕ

abbrev pub add_generation : ℕ → ℕ
add_generation generation = (generation + 1) % 2 ^ 64

pub data Operation (V : Type 0) : Type 0 where
  -- The first section of Request.
  request : Operation V
  -- The thread of that flight could not be made.
  fail : ℕ → Operation V
  -- The thread of that flight is done, without a result where an exception stopped it.
  finish : ℕ → Option V → Operation V
  take_result : Operation V
  cancel : Operation V

pub data Reply (V : Type 0) : Type 0 where
  asked : Bool → Reply V
  taken : Option V → Reply V
  silent : Reply V

-- The flight with a number, and the others.
unfoldable pub pick : ℕ → List ℕ → Option (ℕ × List ℕ)
pick i [] = none
pick zero (g ∷ flights) = some (g, flights)
pick (suc i) (g ∷ flights) = elim (pick i flights) [
  | none ↦ none
  | some (h, rest) ↦ some (h, g ∷ rest)
]

module _ {V : Type 0} where
  unfoldable pub new_snapshot : State V
  new_snapshot = record { busy = false; generation = 0; ready = none; flights = [] }

  abbrev pub is_ready : Option V → Bool
  is_ready none = false
  is_ready (some v) = true

  unfoldable pub request_section : State V → State V × Bool
  request_section s =
      if s.busy || is_ready s.ready
      then (s, false)
      else (record s { busy = true; flights = s.generation ∷ s.flights }, true)

  unfoldable pub fail_section : ℕ → State V → State V
  unfolding pick
  fail_section i s = elim (pick i s.flights) [
    | none ↦ s
    | some (g, rest) ↦ record s { busy = false; flights = rest }
  ]

  unfoldable pub finish_section : ℕ → Option V → State V → State V
  unfolding pick
  finish_section i result s = elim (pick i s.flights) [
    | none ↦ s
    | some (g, rest) ↦ record s {
      ready = if g == s.generation then result else s.ready;
      busy = false;
      flights = rest;
    }
  ]

  unfoldable pub cancel_section : State V → State V
  cancel_section s = record s { generation = add_generation s.generation; ready = none }

  unfoldable pub step : Operation V → State V → State V × Reply V
  unfolding request_section fail_section finish_section cancel_section
  step request s = ((request_section s).0, asked (request_section s).1)
  step (fail i) s = (fail_section i s, silent)
  step (finish i result) s = (finish_section i result s, silent)
  step take_result s = (record s { ready = none }, taken s.ready)
  step cancel s = (cancel_section s, silent)

  unfoldable pub run : List (Operation V) → State V → State V × List (Reply V)
  unfolding step
  run [] s = (s, [])
  run (o ∷ operations) s = let rest = run operations (step o s).0 in (rest.0, (step o s).1 ∷ rest.1)
