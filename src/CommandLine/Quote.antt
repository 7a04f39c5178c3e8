-- ===== src/CommandLine/Quote.antt =====
-- The writer of command lines: QuoteCommandLineArgument and BuildAutomationCommandLine of
-- src/ProxyLane/AutomationOptions.cpp.
pub mod Reading
pub mod Building
mod Tests
use proxy_lane.Common.{
  ℕ, zero, suc, ◌+◌, ◌*◌, Bool, true, false, not, ◌&&◌, ◌||◌, List, [], ◌∷◌, ◌++◌, ◌==◌,
  if◌then◌else◌, codes,
}
use proxy_lane.CommandLine.{Text, AutomationOptions}

abbrev pub backslash : ℕ
backslash = 92

abbrev pub quote : ℕ
quote = 34

abbrev pub replicate : ℕ → ℕ → Text
replicate zero c = []
replicate (suc n) c = c ∷ replicate n c

abbrev pub is_blank : ℕ → Bool
is_blank c = c == 32 || c == 9

-- FindOneOf(" \t\"").
abbrev pub needs_quotes : Text → Bool
needs_quotes [] = false
needs_quotes (c ∷ text) = is_blank c || c == quote || needs_quotes text

-- The loop, with the number of backslashes that wait, and what follows it.
unfoldable pub quote_loop : ℕ → Text → Text
quote_loop backslashes [] = replicate (backslashes * 2) backslash ++ quote ∷ []
quote_loop backslashes (c ∷ text) =
    let rest = quote_loop (if c == backslash then suc backslashes else 0) text in
    if c == backslash
    then rest
    else if c == quote
    then replicate (backslashes * 2 + 1) backslash ++ (quote ∷ rest)
    else replicate backslashes backslash ++ (c ∷ rest)

abbrev pub nothing : Text → Bool
nothing [] = true
nothing (c ∷ text) = false

unfoldable pub quote_command_line_argument : Text → Text
unfolding quote_loop
quote_command_line_argument argument =
    if nothing argument
    then quote ∷ quote ∷ []
    else if not (needs_quotes argument)
    then argument
    else quote ∷ quote_loop 0 argument

-- An option with its value, where there is one; `name` has its blanks.
unfoldable pub valued : Text → Text → Text
unfolding quote_command_line_argument
valued name value = if nothing value then [] else name ++ quote_command_line_argument value

abbrev pub flagged : Text → Bool → Text
flagged name true = name
flagged name false = []

-- Each target argument behind a blank.
unfoldable pub quoted_targets : List Text → Text
unfolding quote_command_line_argument
quoted_targets [] = []
quoted_targets (argument ∷ targets) =
    32 ∷ (quote_command_line_argument argument ++ quoted_targets targets)

abbrev pub no_targets : List Text → Bool
no_targets [] = true
no_targets (argument ∷ targets) = false

unfoldable pub tail_arguments : Text → List Text → Text
unfolding quoted_targets
tail_arguments initial targets =
    if nothing initial && no_targets targets
    then []
    else codes " --" ++ ((if nothing initial then [] else 32 ∷ initial) ++ quoted_targets targets)

-- The name of the event is empty where the pointer is null.
unfoldable pub build_automation_command_line : AutomationOptions → Text → List Text → Text
unfolding valued tail_arguments
build_automation_command_line options event targets =
    codes "--auto --profile "
    ++ (quote_command_line_argument options.profile_name
        ++ (codes " --run "
            ++ (quote_command_line_argument options.target_path
                ++ (valued (codes " --app-name ") options.application_name
                    ++ (valued (codes " --working-directory ") options.working_directory
                        ++ (flagged (codes " --elevated") options.elevated
                            ++ (flagged (codes " --packaged") options.packaged
                                ++ (flagged (codes " --shortcut") options.shortcut
                                    ++ (valued (codes " --bootstrap-event ") event
                                        ++ tail_arguments options.initial_arguments targets)))))))))
