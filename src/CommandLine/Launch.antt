-- ===== src/CommandLine/Launch.antt =====
-- What the parser of src/ProxyLane/AutomationOptions.cpp lets through.
use proxy_lane.Common.{
  ℕ, ◌+◌, ◌≡◌, refl, ◌≢◌, ◌⊎◌, inl, inr, Bool, true, false, Option, none, some, List, [], ◌∷◌,
  arith, ◌==◌, if◌then◌else◌, length, take, drop, Bool-cases, Option-cases, codes,
}
use proxy_lane.CommandLine.{
  Text, AutomationOptions, Error, duplicate, unknown_option, State, Value, Flag, Kind, tail, auto,
  value, flag, other, profile, run, arguments, directory, name, event, kind_of, make_lower, start,
  seen, has_flag, is_text, set_value, set_flag, help_loop,
}
use proxy_lane.CommandLine.Tail.{raw_tail_after_argument}
use proxy_lane.CommandLine.Parse.{
  take_tail, read_option_value, unknown_switch, read_switch, and_then, parse_loop, checked,
  parse_automation_options,
}

-- A profile or a target that was seen is not empty.
record IsSound (s : State) : Type 0 where
  named : s.seen_profile ≡ true → length s.options.profile_name ≢ 0
  targeted : s.seen_run ≡ true → length s.options.target_path ≢ 0

abbrev IsSoundResult : Error ⊎ State → Type 0
IsSoundResult (inl e) = Unit {0}
IsSoundResult (inr s) = IsSound s

set_value-IsSound :
    (v : Value) (text : Text) (s : State)
    → length text ≢ 0
    → IsSound s
    → IsSound (set_value v text s)
unfolding set_value
set_value-IsSound profile text s h k = record { named = λ _. h; targeted = k.targeted }
set_value-IsSound run text s h k = record { named = k.named; targeted = λ _. h }
set_value-IsSound arguments text s h k = record { named = k.named; targeted = k.targeted }
set_value-IsSound directory text s h k = record { named = k.named; targeted = k.targeted }
set_value-IsSound name text s h k = record { named = k.named; targeted = k.targeted }
set_value-IsSound event text s h k = record { named = k.named; targeted = k.targeted }

set_flag-IsSound : (f : Flag) (s : State) → IsSound s → IsSound (set_flag f s)
unfolding set_flag
set_flag-IsSound Flag.elevated s k = record { named = k.named; targeted = k.targeted }
set_flag-IsSound Flag.packaged s k = record { named = k.named; targeted = k.targeted }
set_flag-IsSound Flag.shortcut s k = record { named = k.named; targeted = k.targeted }

start-IsSound : IsSound start
start-IsSound = record { named = λ e. ground (arith, e); targeted = λ e. ground (arith, e) }

read_option_value-IsSound :
    (v : Value) (text : Option Text) (s : State)
    → IsSound s
    → IsSoundResult (read_option_value v text s)
unfolding read_option_value
read_option_value-IsSound v none s k = tt
read_option_value-IsSound v (some text) s k = elim (Bool-cases (seen v s)) [
  | inl b ↦ rw b tt
  | inr b ↦ elim (Bool-cases (length text == 0)) [
    | inl e ↦ rw (b, e) tt
    | inr e ↦ rw (b, e) (set_value-IsSound v text s (λ z. ground (arith, z, e)) k)
  ]
]

if-IsSound :
    (b : Bool) (e : Error) (s : State)
    → IsSound s
    → IsSoundResult (let r : Error ⊎ State = if b then inl e else inr s in r)
if-IsSound true e s k = tt
if-IsSound false e s k = k

unknown-IsSound : (a : Text) (s : State) → IsSound s → IsSoundResult (unknown_switch a s)
unfolding unknown_switch
unknown-IsSound a s k = elim (Bool-cases (is_text (take 2 a) (codes "--"))) [
  | inl b ↦ rw b (
      if-IsSound s.options.enabled unknown_option (record s { unknown = true })
        (record { named = k.named; targeted = k.targeted }))
  | inr b ↦ rw b (if-IsSound s.options.enabled unknown_option s k)
]

read_switch-IsSound :
    (a : Text) (kind : Kind) (s : State) → IsSound s → IsSoundResult (read_switch a kind s)
unfolding read_switch
read_switch-IsSound a tail s k = unknown-IsSound a s k
read_switch-IsSound a auto s k =
    if-IsSound s.options.enabled duplicate _ (record { named = k.named; targeted = k.targeted })
read_switch-IsSound a (value v) s k = unknown-IsSound a s k
read_switch-IsSound a (flag f) s k =
    if-IsSound (has_flag f s) duplicate (set_flag f s) (set_flag-IsSound f s k)
read_switch-IsSound a other s k = unknown-IsSound a s k

and_then-IsSound :
    (r : Error ⊎ State) (f : State → Error ⊎ State)
    → IsSoundResult r
    → ((s : State) → IsSound s → IsSoundResult (f s))
    → IsSoundResult (and_then r f)
and_then-IsSound (inl e) f h k = tt
and_then-IsSound (inr s) f h k = k s h

Kind-cases :
    (k : Kind)
    → (k ≡ tail)
      ⊎ (((v : Value) × (k ≡ value v)) ⊎ ((k ≡ auto) ⊎ (((f : Flag) × (k ≡ flag f)) ⊎ (k ≡ other))))
Kind-cases tail = inl refl
Kind-cases (value v) = inr (inl (v, refl))
Kind-cases auto = inr (inr (inl refl))
Kind-cases (flag f) = inr (inr (inr (inl (f, refl))))
Kind-cases other = inr (inr (inr (inr refl)))

-- What the last tests let through.
abbrev pub IsNamed : AutomationOptions → Type 0
IsNamed o = (length o.profile_name ≢ 0) × (length o.target_path ≢ 0)

checked-IsNamed :
    (r : Error ⊎ State) (o : AutomationOptions)
    → IsSoundResult r
    → checked r ≡ inr o
    → o.enabled ≡ true
    → IsNamed o
unfolding checked
checked-IsNamed (inl e) o k h en = absurd (ground (arith, h))
checked-IsNamed (inr s) o k h en = ground (arith, k, h, en)

module _ (split : Text → Option (List Text)) where
  take_tail-IsSound :
      (line : Text) (i : ℕ) (s : State) → IsSound s → IsSoundResult (take_tail split line i s)
  unfolding take_tail
  take_tail-IsSound line i s k = elim (Option-cases (raw_tail_after_argument split line i)) [
    | inl e ↦ rw (e, IsSoundResult) tt
    | inr (t, e) ↦ rw (e, IsSoundResult) (record { named = k.named; targeted = k.targeted })
  ]

  parse_loop-IsSound :
      (line : Text) (i : ℕ) (args : List Text) (s : State)
      → IsSound s
      → IsSoundResult (parse_loop split line i args s)
  unfolding parse_loop
  parse_loop-IsSound line i [] s k = k
  parse_loop-IsSound line i (a ∷ []) s k = elim (Kind-cases (kind_of (make_lower a))) [
    | inl e ↦ rw (e, IsSoundResult) (take_tail-IsSound line i s k)
    | inr (inl (v, e)) ↦ rw (e, IsSoundResult) (read_option_value-IsSound v none s k)
    | inr (inr (inl e)) ↦ rw (e, IsSoundResult) (read_switch-IsSound (make_lower a) auto s k)
    | inr (inr (inr (inl (f, e)))) ↦
        rw (e, IsSoundResult) (read_switch-IsSound (make_lower a) (flag f) s k)
    | inr (inr (inr (inr e))) ↦ rw (e, IsSoundResult) (read_switch-IsSound (make_lower a) other s k)
  ]
  parse_loop-IsSound line i (a ∷ b ∷ rest) s k =
      let goes = λ (kind : Kind).
        and_then-IsSound (read_switch (make_lower a) kind s)
          (λ s'. parse_loop split line (i + 1) (b ∷ rest) s')
          (read_switch-IsSound (make_lower a) kind s k)
          (λ s' k'. parse_loop-IsSound line (i + 1) (b ∷ rest) s' k') in
      elim (Kind-cases (kind_of (make_lower a))) [
        | inl e ↦ rw (e, IsSoundResult) (take_tail-IsSound line i s k)
        | inr (inl (v, e)) ↦
            rw (e, IsSoundResult)
              (and_then-IsSound (read_option_value v (some b) s)
                (λ s'. parse_loop split line (i + 2) rest s')
                (read_option_value-IsSound v (some b) s k)
                (λ s' k'. parse_loop-IsSound line (i + 2) rest s' k'))
        | inr (inr (inl e)) ↦ rw (e, IsSoundResult) (goes auto)
        | inr (inr (inr (inl (f, e)))) ↦ rw (e, IsSoundResult) (goes (flag f))
        | inr (inr (inr (inr e))) ↦ rw (e, IsSoundResult) (goes other)
      ]

  -- An automated launch that is let through names a profile and a target, neither of them empty, and
  -- whatever the system makes of the quotes.
  pub parse_automation_options_lem :
      (line : Text) (o : AutomationOptions)
      → parse_automation_options split line ≡ inr o
      → o.enabled ≡ true
      → IsNamed o
  unfolding parse_automation_options
  parse_automation_options_lem line o h en = elim (Option-cases (split line)) [
    | inl e ↦ absurd (ground (arith, e, h))
    | inr (argv, e) ↦ elim (Bool-cases (help_loop (drop 1 argv))) [
      | inl b ↦ absurd (ground (arith, e, b, h, en))
      | inr b ↦
          let loop = parse_loop split line 1 (drop 1 argv) start in
          let outcome : checked loop ≡ inr o = ground (arith, e, b, h) in
          checked-IsNamed loop o (parse_loop-IsSound line 1 (drop 1 argv) start start-IsSound)
            outcome en
    ]
  ]
