-- ===== src/CommandLine/Quote/Building.antt =====
-- What CommandLineToArgvW makes of the command line that BuildAutomationCommandLine of
-- src/ProxyLane/AutomationOptions.cpp writes.
use mathlib.Core.Path.{subst}
use proxy_lane.Common.{
  sym, append-nil, append_assoc, ◌∙◌, ℕ, ◌≡◌, refl, sym, ap, ◌∙◌, Bool, true, false, List, [], ◌∷◌,
  ◌++◌, append-nil, append_assoc, arith, if◌then◌else◌, codes,
}
use proxy_lane.CommandLine.{Text, AutomationOptions}
use proxy_lane.CommandLine.Quote.{
  needs_quotes, nothing, quote_command_line_argument, valued, flagged, quoted_targets,
  tail_arguments, build_automation_command_line,
}
use proxy_lane.CommandLine.Quote.Reading.{IsDocumented, quote_command_line_argument-reads}

-- The whole text is read as these arguments, with one blank before each of them but the first.
abbrev pub Splits : (Bool → Text → Text → Text → Type 0) → Text → List Text → Type 0
Splits reads text [] = text ≡ []
Splits reads text (argument ∷ []) = reads false text argument []
Splits reads text (argument ∷ next ∷ more) =
    (rest : Text) × reads false text argument (32 ∷ rest) × Splits reads rest (next ∷ more)

-- Each word quoted, behind a blank.
suffix : List Text → Text
suffix [] = []
suffix (word ∷ words) = 32 ∷ (quote_command_line_argument word ++ suffix words)

suffix-append : (xs ys : List Text) → suffix (xs ++ ys) ≡ suffix xs ++ suffix ys
unfolding suffix
suffix-append [] ys = refl
suffix-append (x ∷ xs) ys =
    ap (λ t. 32 ∷ (quote_command_line_argument x ++ t)) (suffix-append xs ys)
    ∙ ap (◌∷◌ 32) (sym (append_assoc (quote_command_line_argument x) (suffix xs) (suffix ys)))

quoted_targets-suffix : (targets : List Text) → quoted_targets targets ≡ suffix targets
unfolding quoted_targets suffix
quoted_targets-suffix [] = refl
quoted_targets-suffix (t ∷ targets) =
    ap (λ x. 32 ∷ (quote_command_line_argument t ++ x)) (quoted_targets-suffix targets)

abbrev pub valued_words : Text → Text → List Text
valued_words name value = if nothing value then [] else name ∷ value ∷ []

abbrev pub flagged_words : Text → Bool → List Text
flagged_words name true = name ∷ []
flagged_words name false = []

abbrev pub target_words : List Text → List Text
target_words [] = []
target_words (t ∷ targets) = codes "--" ∷ t ∷ targets

-- The arguments that the options stand for, behind the first one.
unfoldable pub more_words : AutomationOptions → Text → List Text → List Text
more_words options event targets =
    codes "--profile"
    ∷ options.profile_name
    ∷ codes "--run"
    ∷ options.target_path
    ∷ (valued_words (codes "--app-name") options.application_name
        ++ (valued_words (codes "--working-directory") options.working_directory
            ++ (flagged_words (codes "--elevated") options.elevated
                ++ (flagged_words (codes "--packaged") options.packaged
                    ++ (flagged_words (codes "--shortcut") options.shortcut
                        ++ (valued_words (codes "--bootstrap-event") event
                            ++ target_words targets))))))

-- A word without blanks and quotation marks is written as it stands.
bare :
    (c : ℕ) (word : Text)
    → needs_quotes (c ∷ word) ≡ false
    → quote_command_line_argument (c ∷ word) ≡ c ∷ word
unfolding quote_command_line_argument
bare c word h = ground (arith, h)

valued-suffix :
    (c : ℕ) (name value : Text)
    → needs_quotes (c ∷ name) ≡ false
    → valued (32 ∷ c ∷ (name ++ 32 ∷ [])) value ≡ suffix (valued_words (c ∷ name) value)
valued-suffix c name [] h = unfold valued suffix in refl
valued-suffix c name (d ∷ value) h =
    let qv : Text = quote_command_line_argument (d ∷ value) in
    unfold valued suffix in
    ap (λ (t : Text). 32 ∷ c ∷ t) (append_assoc name (32 ∷ []) qv)
    ∙ ap (λ (t : Text). 32 ∷ c ∷ (name ++ (32 ∷ t))) (sym (append-nil qv))
    ∙ ap (λ (w : Text). 32 ∷ (w ++ (32 ∷ (qv ++ [])))) (sym (bare c name h))

flagged-suffix :
    (c : ℕ) (name : Text) (b : Bool)
    → needs_quotes (c ∷ name) ≡ false
    → flagged (32 ∷ c ∷ name) b ≡ suffix (flagged_words (c ∷ name) b)
unfolding suffix
flagged-suffix c name true h =
    ap (◌∷◌ 32) (sym (append-nil (c ∷ name)))
    ∙ ap (λ (w : Text). 32 ∷ (w ++ [])) (sym (bare c name h))
flagged-suffix c name false h = refl

joined :
    (x t : Text) (words more : List Text)
    → x ≡ suffix words
    → t ≡ suffix more
    → x ++ t ≡ suffix (words ++ more)
joined x t words more h k =
    ap (λ y. y ++ t) h ∙ ap (λ y. suffix words ++ y) k ∙ sym (suffix-append words more)

tail_arguments-suffix :
    (targets : List Text) → tail_arguments [] targets ≡ suffix (target_words targets)
unfolding tail_arguments
tail_arguments-suffix [] = unfold suffix in refl
tail_arguments-suffix (t ∷ targets) =
    let e = quoted_targets-suffix (t ∷ targets) in
    let d = bare 45 (codes "-") refl in
    ap (λ y. codes " --" ++ y) e
    ∙ unfold suffix in ap (λ w. 32 ∷ (w ++ suffix (t ∷ targets))) (sym d)

build-suffix :
    (options : AutomationOptions) (event : Text) (targets : List Text)
    → options.initial_arguments ≡ []
    → build_automation_command_line options event targets
      ≡ quote_command_line_argument (codes "--auto") ++ suffix (more_words options event targets)
build-suffix options event targets h =
    let last : tail_arguments options.initial_arguments targets ≡ suffix (target_words targets) =
      ap (λ i. tail_arguments i targets) h ∙ tail_arguments-suffix targets in
    let flags = joined _ _ _ _ (flagged-suffix 45 (codes "-elevated") options.elevated refl) (
      joined _ _ _ _ (flagged-suffix 45 (codes "-packaged") options.packaged refl) (
        joined _ _ _ _ (flagged-suffix 45 (codes "-shortcut") options.shortcut refl)
          (joined _ _ _ _ (valued-suffix 45 (codes "-bootstrap-event") event refl) last))) in
    let optional =
      joined _ _ _ _ (valued-suffix 45 (codes "-app-name") options.application_name refl) (
        joined _ _ _ _
          (valued-suffix 45 (codes "-working-directory") options.working_directory refl) flags) in
    let p : Text = quote_command_line_argument options.profile_name in
    let r : Text = quote_command_line_argument options.target_path in
    unfold build_automation_command_line in
    ap (λ t. codes "--auto --profile " ++ (p ++ (codes " --run " ++ (r ++ t)))) optional
    ∙ unfold suffix more_words quote_command_line_argument in refl

module _ {reads : Bool → Text → Text → Text → Type 0} (rules : IsDocumented reads) where
  suffix-Splits :
      (word : Text) (words : List Text)
      → Splits reads (quote_command_line_argument word ++ suffix words) (word ∷ words)
  unfolding suffix
  suffix-Splits word [] = quote_command_line_argument-reads rules [] tt word
  suffix-Splits word (next ∷ more) = (
    quote_command_line_argument next ++ suffix more,
    quote_command_line_argument-reads rules (suffix (next ∷ more)) refl word,
    suffix-Splits next more,
  )

  -- Read by the documented rules, the command line of an automated launch splits into `--auto`, the
  -- profile and the program behind their options, the options that are set, the name of the event
  -- and, behind `--`, the target's arguments: each value comes back whole, whatever it holds. The
  -- options carry no arguments as raw text, which are not quoted.
  pub build_automation_command_line-Splits :
      (options : AutomationOptions) (event : Text) (targets : List Text)
      → options.initial_arguments ≡ []
      → Splits reads
          (build_automation_command_line options event targets)
          (codes "--auto" ∷ more_words options event targets)
  build_automation_command_line-Splits options event targets h =
      subst (λ t. Splits reads t (codes "--auto" ∷ more_words options event targets))
        (sym (build-suffix options event targets h))
        (suffix-Splits (codes "--auto") (more_words options event targets))
