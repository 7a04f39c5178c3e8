-- ===== src/CommandLine/Parse.antt =====
-- ReadOptionValue and the loops of ParseAutomationOptions, src/ProxyLane/AutomationOptions.cpp.
use proxy_lane.Common.{
  ℕ, ◌+◌, ◌⊎◌, inl, inr, true, not, ◌&&◌, ◌||◌, Option, none, some, List, [], ◌∷◌, ◌++◌, ◌==◌,
  if◌then◌else◌, length, take, drop, codes,
}
use proxy_lane.CommandLine.Tail.{raw_tail_after_argument}
use proxy_lane.CommandLine.{
  AutomationOptions, Error, Kind, State, Text, Value, has_flag, help_loop, is_text, kind_of,
  make_lower, no_options, seen, set_flag, set_value, start, value, flag, tail, auto, split_failed,
  no_boundary, duplicate, requires_value, cannot_be_empty, unknown_option, needs_profile_and_run,
}

-- ReadOptionValue on an option that has not been seen.
unfoldable pub read_option_value : Value → Option Text → State → Error ⊎ State
unfolding seen set_value
read_option_value v none s = inl (if seen v s then duplicate else requires_value)
read_option_value v (some text) s =
    if seen v s
    then inl duplicate
    else if length text == 0
    then inl cannot_be_empty
    else inr (set_value v text s)

-- An argument that is no option: refused once the launch is automated, and else noted if it looks
-- like one.
unfoldable pub unknown_switch : Text → State → Error ⊎ State
unknown_switch a s =
    if s.options.enabled
    then inl unknown_option
    else inr (if is_text (take 2 a) (codes "--") then record s { unknown = true } else s)

-- An argument that is not `--` and takes no value.
unfoldable pub read_switch : Text → Kind → State → Error ⊎ State
unfolding has_flag set_flag unknown_switch
read_switch a auto s =
    if s.options.enabled
    then inl duplicate
    else inr (record s { options = record s.options { enabled = true } })
read_switch a (flag f) s = if has_flag f s then inl duplicate else inr (set_flag f s)
read_switch a _ s = unknown_switch a s

abbrev pub and_then : Error ⊎ State → (State → Error ⊎ State) → Error ⊎ State
and_then (inl e) f = inl e
and_then (inr s) f = f s

-- What follows the second loop.
unfoldable pub checked : Error ⊎ State → Error ⊎ AutomationOptions
checked (inl e) = inl e
checked (inr s) =
    if not s.options.enabled
    then inr s.options
    else if s.unknown
    then inl unknown_option
    else if not s.seen_profile || not s.seen_run
    then inl needs_profile_and_run
    else inr s.options

module _ (split : Text → Option (List Text)) where
  -- What follows `--` is added to the arguments as it was written.
  unfoldable pub take_tail : Text → ℕ → State → Error ⊎ State
  unfolding raw_tail_after_argument
  take_tail line i s = elim (raw_tail_after_argument split line i) [
    | none ↦ inl no_boundary
    | some t ↦
        let before = s.options.initial_arguments in
        let space = if not (length before == 0) && not (length t == 0) then b' ' ∷ [] else [] in
        inr (record s { options = record s.options { initial_arguments = before ++ (space ++ t) } })
  ]

  -- The second loop, from the argument with index `i`.
  unfoldable pub parse_loop : Text → ℕ → List Text → State → Error ⊎ State
  unfolding kind_of take_tail read_option_value read_switch
  parse_loop line i [] s = inr s
  parse_loop line i (a ∷ []) s = elim (kind_of (make_lower a)) [
    | tail ↦ take_tail line i s
    | value v ↦ read_option_value v none s
    | k ↦ read_switch (make_lower a) k s
  ]
  parse_loop line i (a ∷ b ∷ rest) s = elim (kind_of (make_lower a)) [
    | tail ↦ take_tail line i s
    | value v ↦ and_then (read_option_value v (some b) s) (λ s'. parse_loop line (i + 2) rest s')
    | k ↦ and_then (read_switch (make_lower a) k s) (λ s'. parse_loop line (i + 1) (b ∷ rest) s')
  ]

  unfoldable pub parse_automation_options : Text → Error ⊎ AutomationOptions
  unfolding help_loop parse_loop checked
  parse_automation_options line = elim (split line) [
    | none ↦ inl split_failed
    | some argv ↦
        if help_loop (drop 1 argv)
        then inr (record no_options { show_help = true })
        else checked (parse_loop line 1 (drop 1 argv) start)
  ]
