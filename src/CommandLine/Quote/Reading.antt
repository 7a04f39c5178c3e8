-- ===== src/CommandLine/Quote/Reading.antt =====
-- An argument that QuoteCommandLineArgument of src/ProxyLane/AutomationOptions.cpp wrote, read by
-- the documented rules of CommandLineToArgvW.
use proxy_lane.Common.{
  ℕ, zero, suc, ◌+◌, ◌*◌, ◌≡◌, refl, ap, ◌≢◌, inl, inr, Bool, true, false, not, [], ◌∷◌, ◌++◌,
  append_assoc, arith, ◌==◌, Bool-cases,
}
use proxy_lane.CommandLine.{Text}
use proxy_lane.CommandLine.Quote.{
  backslash, quote, replicate, is_blank, needs_quotes, quote_loop, quote_command_line_argument,
}

-- The text is at its end or at a blank.
abbrev pub AtEnd : Text → Type 0
AtEnd [] = Unit
AtEnd (c ∷ text) = is_blank c ≡ true

-- The text does not go on with a backslash or a quotation mark.
abbrev pub IsFree : Text → Type 0
IsFree [] = Unit
IsFree (c ∷ text) = (c ≢ backslash) × (c ≢ quote)

-- `reads inside text argument rest`: from the text, inside quotation marks or not, the rest of one
-- argument is read. The documented rules: backslashes stand for themselves unless a quotation mark
-- follows; of an even number before one half is kept and the mark opens or closes a quotation; of
-- an odd number half is kept, and the mark itself; a blank outside of a quotation ends the argument.
pub record IsDocumented (reads : Bool → Text → Text → Text → Type 0) : Type 0 where
  pub ends : (text : Text) → AtEnd text → reads false text [] text
  pub plain :
      (inside : Bool) (c : ℕ) (text argument rest : Text)
      → c ≢ backslash
      → c ≢ quote
      → (inside ≡ false → is_blank c ≡ false)
      → reads inside text argument rest
      → reads inside (c ∷ text) (c ∷ argument) rest
  pub backslashes :
      (inside : Bool) (n : ℕ) (text argument rest : Text)
      → IsFree text
      → reads inside text argument rest
      → reads inside (replicate n backslash ++ text) (replicate n backslash ++ argument) rest
  pub even :
      (inside : Bool) (n : ℕ) (text argument rest : Text)
      → (inside ≡ true → IsFree text)
      → reads (not inside) text argument rest
      → reads inside
          (replicate (n * 2) backslash ++ (quote ∷ text))
          (replicate n backslash ++ argument)
          rest
  pub odd :
      (inside : Bool) (n : ℕ) (text argument rest : Text)
      → reads inside text argument rest
      → reads inside
          (replicate (n * 2 + 1) backslash ++ (quote ∷ text))
          (replicate n backslash ++ (quote ∷ argument))
          rest

replicate-shift :
    (n : ℕ) (c : ℕ) (text : Text) → replicate (suc n) c ++ text ≡ replicate n c ++ (c ∷ text)
replicate-shift zero c text = refl
replicate-shift (suc n) c text = ap (◌∷◌ c) (replicate-shift n c text)

AtEnd-IsFree : (text : Text) → AtEnd text → IsFree text
AtEnd-IsFree [] h = tt
AtEnd-IsFree (c ∷ text) h = (λ e. absurd (ground (arith, e, h)), λ e. absurd (ground (arith, e, h)))

module _ {reads : Bool → Text → Text → Text → Type 0} (rules : IsDocumented reads) (rest : Text)
    (at_end : AtEnd rest) where
  -- A character that is not special, behind the backslashes that wait.
  plain-reads :
      (inside : Bool) (n c : ℕ) (text argument : Text)
      → (c == backslash) ≡ false
      → (c == quote) ≡ false
      → (inside ≡ false → is_blank c ≡ false)
      → reads inside text argument rest
      → reads inside
          (replicate n backslash ++ (c ∷ text))
          (replicate n backslash ++ (c ∷ argument))
          rest
  plain-reads inside n c text argument b q h r =
      let nb : c ≢ backslash = λ e. ground (arith, b, e) in
      let nq : c ≢ quote = λ e. ground (arith, q, e) in
      rules.backslashes inside n (c ∷ text) (c ∷ argument) rest (nb, nq)
        (rules.plain inside c text argument rest nb nq h r)

  quote_loop-reads :
      (n : ℕ) (text : Text)
      → reads true (quote_loop n text ++ rest) (replicate n backslash ++ text) rest
  unfolding quote_loop
  quote_loop-reads n [] =
      rw (append_assoc (replicate (n * 2) backslash) (quote ∷ []) rest)
        (rules.even true n rest [] rest (λ e. AtEnd-IsFree rest at_end) (rules.ends rest at_end))
  quote_loop-reads n (c ∷ text) =
      let more = quote_loop-reads (suc n) text in
      let anew = quote_loop-reads 0 text in
      elim (Bool-cases (c == backslash)) [
        | inl e ↦
            let same : c ≡ backslash = ground (arith, e) in
            rw (e, same, ← replicate-shift n backslash text) more
        | inr e ↦ elim (Bool-cases (c == quote)) [
          | inl q ↦
              let same : c ≡ quote = ground (arith, q) in
              rw
                (
                  e,
                  q,
                  same,
                  append_assoc (replicate (n * 2 + 1) backslash) (quote ∷ quote_loop 0 text) rest,
                )
                (rules.odd true n (quote_loop 0 text ++ rest) text rest anew)
          | inr q ↦
              rw (e, q, append_assoc (replicate n backslash) (c ∷ quote_loop 0 text) rest)
                (plain-reads true n c (quote_loop 0 text ++ rest) text e q (λ h. absurd (cc)) anew)
        ]
      ]

  bare-reads :
      (n : ℕ) (text : Text)
      → needs_quotes text ≡ false
      → reads false (replicate n backslash ++ (text ++ rest)) (replicate n backslash ++ text) rest
  bare-reads n [] h =
      rules.backslashes false n rest [] rest (AtEnd-IsFree rest at_end) (rules.ends rest at_end)
  bare-reads n (c ∷ text) h =
      let more = bare-reads (suc n) text (ground (arith, h)) in
      let anew = bare-reads 0 text (ground (arith, h)) in
      elim (Bool-cases (c == backslash)) [
        | inl e ↦
            let same : c ≡ backslash = ground (arith, e) in
            rw
              (
                same,
                ← replicate-shift n backslash text,
                ← replicate-shift n backslash (text ++ rest),
              )
              more
        | inr e ↦
            plain-reads false n c (text ++ rest) text e (ground (arith, h)) (λ f. ground (arith, h))
              anew
      ]

  -- By the documented rules a quoted argument is read as that argument, whatever it holds, up to
  -- where the text goes on: at its end or with a blank.
  pub quote_command_line_argument-reads :
      (argument : Text) → reads false (quote_command_line_argument argument ++ rest) argument rest
  unfolding quote_command_line_argument
  quote_command_line_argument-reads [] =
      rules.even false 0 (quote ∷ rest) [] rest (λ e. absurd (cc))
        (rules.even true 0 rest [] rest (λ e. AtEnd-IsFree rest at_end) (rules.ends rest at_end))
  quote_command_line_argument-reads (c ∷ text) =
      let bare = bare-reads 0 (c ∷ text) in
      let quoted =
        rules.even false 0 (quote_loop 0 (c ∷ text) ++ rest) (c ∷ text) rest (λ e. absurd (cc))
          (quote_loop-reads 0 (c ∷ text)) in
      elim (Bool-cases (needs_quotes (c ∷ text))) [ inl e ↦ rw e quoted | inr e ↦ rw e (bare e) ]
