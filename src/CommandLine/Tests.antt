-- ===== src/CommandLine/Tests.antt =====
-- An automated launch, with a splitter at blanks.
use proxy_lane.Common.{
  ℕ, ◌≡◌, refl, inl, inr, true, Option, some, List, [], ◌∷◌, ◌==◌, if◌then◌else◌, codes,
}
use proxy_lane.CommandLine.{
  Text, AutomationOptions, no_options, help_loop, kind_of, seen, set_value, duplicate,
}
use proxy_lane.CommandLine.Parse.{
  parse_automation_options, parse_loop, read_option_value, read_switch, checked, take_tail,
}
use proxy_lane.CommandLine.Tail.{raw_tail_after_argument, search, skip_blanks}
use proxy_lane.CommandLine.Launch.{IsNamed, parse_automation_options_lem}

abbrev add : ℕ → List Text → List Text
add c [] = (c ∷ []) ∷ []
add c (word ∷ words) = (c ∷ word) ∷ words

-- The words between single blanks.
abbrev words : Text → List Text
words [] = [] ∷ []
words (c ∷ s) = let rest = words s in if c == b' ' then [] ∷ rest else add c rest

abbrev split : Text → Option (List Text)
split line = some (words line)

abbrev line : Text
line = codes "p.exe --auto --PROFILE home --run a.exe -- -x  y"

abbrev options : AutomationOptions
options = record no_options {
  enabled = true;
  profile_name = codes "home";
  target_path = codes "a.exe";
  initial_arguments = codes "-x  y";
}

parse-line : parse_automation_options split line ≡ inr options
unfolding parse_automation_options parse_loop help_loop kind_of read_option_value read_switch seen
    set_value checked take_tail raw_tail_after_argument search skip_blanks
parse-line = refl

parse-twice : parse_automation_options split (codes "p.exe --auto --auto") ≡ inl duplicate
unfolding parse_automation_options parse_loop help_loop kind_of read_switch checked
parse-twice = refl

parse_automation_options_lem_example : IsNamed options
parse_automation_options_lem_example =
    parse_automation_options_lem split line options parse-line refl
