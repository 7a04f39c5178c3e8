-- ===== src/CommandLine.antt =====
-- The command line of an automated launch: ParseAutomationOptions of
-- src/ProxyLane/AutomationOptions.cpp. A text is the list of its code units. CommandLineToArgvW is
-- the parameter `split`, none where it fails. CString's MakeLower is taken in the C locale.
pub mod Tail
pub mod Parse
pub mod Quote
pub mod Launch
mod Tests
use proxy_lane.Common.{
  ℕ, Bool, true, false, ◌||◌, List, [], ◌∷◌, map, if◌then◌else◌, bytes_eq, codes, to_lower,
}

abbrev pub Text : Type 0
Text = List ℕ

pub record AutomationOptions : Type 0 where
  pub enabled : Bool
  pub show_help : Bool
  pub profile_name : Text
  pub target_path : Text
  pub initial_arguments : Text
  pub working_directory : Text
  pub application_name : Text
  pub bootstrap_event_name : Text
  pub elevated : Bool
  pub packaged : Bool
  pub shortcut : Bool

abbrev pub no_options : AutomationOptions
no_options = record {
  enabled = false;
  show_help = false;
  profile_name = [];
  target_path = [];
  initial_arguments = [];
  working_directory = [];
  application_name = [];
  bootstrap_event_name = [];
  elevated = false;
  packaged = false;
  shortcut = false;
}

pub data Error : Type 0 where
  split_failed no_boundary duplicate requires_value cannot_be_empty unknown_option
        needs_profile_and_run :
      Error

-- The options that take a value, and those that are a flag.
pub data Value : Type 0 where
  profile run arguments directory name event : Value

pub data Flag : Type 0 where
  elevated packaged shortcut : Flag

pub data Kind : Type 0 where
  tail auto : Kind
  value : Value → Kind
  flag : Flag → Kind
  other : Kind

abbrev pub is_text : Text → Text → Bool
is_text a b = bytes_eq a b

-- The chain of comparisons with an argument in lower case.
unfoldable pub kind_of : Text → Kind
kind_of a =
    if is_text a (codes "--")
    then tail
    else if is_text a (codes "--auto")
    then auto
    else if is_text a (codes "--profile")
    then value profile
    else if is_text a (codes "--run")
    then value run
    else if is_text a (codes "--elevated")
    then flag Flag.elevated
    else if is_text a (codes "--packaged")
    then flag Flag.packaged
    else if is_text a (codes "--shortcut")
    then flag Flag.shortcut
    else if is_text a (codes "--arguments")
    then value arguments
    else if is_text a (codes "--working-directory")
    then value directory
    else if is_text a (codes "--app-name")
    then value name
    else if is_text a (codes "--bootstrap-event")
    then value event
    else other

abbrev pub make_lower : Text → Text
make_lower text = map to_lower text

abbrev pub asks_help : Text → Bool
asks_help a = is_text a (codes "/?") || is_text a (codes "-?") || is_text a (codes "--help")

-- The first loop: a help switch before `--` that is not an option's value.
unfoldable pub help_loop : List Text → Bool
unfolding kind_of
help_loop [] = false
help_loop (a ∷ []) = elim (kind_of (make_lower a)) [
  | tail ↦ false
  | value v ↦ false
  | _ ↦ asks_help (make_lower a)
]
help_loop (a ∷ b ∷ rest) = elim (kind_of (make_lower a)) [
  | tail ↦ false
  | value v ↦ help_loop rest
  | _ ↦ asks_help (make_lower a) || help_loop (b ∷ rest)
]

-- The options so far, which of the values were seen, and whether an option was unknown.
pub record State : Type 0 where
  pub options : AutomationOptions
  pub seen_profile : Bool
  pub seen_run : Bool
  pub seen_event : Bool
  pub seen_arguments : Bool
  pub seen_directory : Bool
  pub seen_name : Bool
  pub unknown : Bool

abbrev pub start : State
start = record {
  options = no_options;
  seen_profile = false;
  seen_run = false;
  seen_event = false;
  seen_arguments = false;
  seen_directory = false;
  seen_name = false;
  unknown = false;
}

unfoldable pub seen : Value → State → Bool
seen profile s = s.seen_profile
seen run s = s.seen_run
seen arguments s = s.seen_arguments
seen directory s = s.seen_directory
seen name s = s.seen_name
seen event s = s.seen_event

unfoldable pub set_value : Value → Text → State → State
set_value profile v s = record s {
  seen_profile = true;
  options = record s.options { profile_name = v };
}
set_value run v s = record s { seen_run = true; options = record s.options { target_path = v } }
set_value arguments v s = record s {
  seen_arguments = true;
  options = record s.options { initial_arguments = v };
}
set_value directory v s = record s {
  seen_directory = true;
  options = record s.options { working_directory = v };
}
set_value name v s = record s {
  seen_name = true;
  options = record s.options { application_name = v };
}
set_value event v s = record s {
  seen_event = true;
  options = record s.options { bootstrap_event_name = v };
}

unfoldable pub has_flag : Flag → State → Bool
has_flag Flag.elevated s = s.options.elevated
has_flag Flag.packaged s = s.options.packaged
has_flag Flag.shortcut s = s.options.shortcut

unfoldable pub set_flag : Flag → State → State
set_flag Flag.elevated s = record s { options = record s.options { elevated = true } }
set_flag Flag.packaged s = record s { options = record s.options { packaged = true } }
set_flag Flag.shortcut s = record s { options = record s.options { shortcut = true } }
