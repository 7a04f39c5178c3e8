-- ===== src/CommandLine/Tail.antt =====
-- Where the arguments of the launched program begin: RawTailAfterArgument of
-- src/ProxyLane/AutomationOptions.cpp.
use proxy_lane.Common.{
  ℕ, zero, suc, ◌-◌, Bool, true, false, not, ◌&&◌, ◌||◌, Option, none, some, List, [], ◌∷◌, ◌++◌,
  ltb, leb, ◌==◌, if◌then◌else◌, length, get_or, take, drop, codes,
}
use proxy_lane.CommandLine.{Text, is_text}

abbrev pub is_blank : ℕ → Bool
is_blank c = c == b' ' || c == 9

abbrev pub texts_eq : List Text → List Text → Bool
texts_eq [] [] = true
texts_eq [] (y ∷ ys) = false
texts_eq (x ∷ xs) [] = false
texts_eq (x ∷ xs) (y ∷ ys) = is_text x y && texts_eq xs ys

abbrev pub marker : Text
marker = codes "PL_RAW_TAIL_MARKER"

unfoldable pub skip_blanks : Text → Text
skip_blanks [] = []
skip_blanks (c ∷ s) = if is_blank c then skip_blanks s else c ∷ s

-- A place that the loop probes: the end or a blank, not right after another blank.
abbrev pub is_candidate : Text → ℕ → Bool
is_candidate line offset =
    (leb (length line) offset || is_blank (get_or line offset 0))
    && not (ltb 0 offset && is_blank (get_or line (offset - 1) 0))

module _ (split : Text → Option (List Text)) where
  -- The loop over the offsets, `left` of them to go.
  unfoldable pub search : Text → List Text → ℕ → ℕ → Option Text
  unfolding skip_blanks
  search line wanted zero offset = none
  search line wanted (suc left) offset =
      let rest = search line wanted left (suc offset) in
      if is_candidate line offset
      then elim (split (take offset line ++ (b' ' ∷ marker))) [
        | none ↦ none
        | some probed ↦
            if texts_eq probed (wanted ++ marker ∷ [])
            then some (skip_blanks (drop offset line))
            else rest
      ]
      else rest

  unfoldable pub raw_tail_after_argument : Text → ℕ → Option Text
  unfolding search
  raw_tail_after_argument line argument_index = elim (split line) [
    | none ↦ none
    | some argv ↦
        if argument_index == 0
          || leb (length argv) argument_index
          || not (is_text (get_or argv argument_index []) (codes "--"))
        then none
        else search line (take (suc argument_index) argv) (suc (length line)) 0
  ]
