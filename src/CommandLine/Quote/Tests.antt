-- ===== src/CommandLine/Quote/Tests.antt =====
-- A reader by the documented rules of CommandLineToArgvW, and arguments with every special character.
use proxy_lane.Common.{
  ℕ, zero, suc, ◌+◌, ◌*◌, ◌/◌, ◌%◌, ◌≡◌, refl, ap, ◌∙◌, ◌≢◌, Bool, true, false, not, ◌&&◌, [], ◌∷◌,
  ◌++◌, append-nil, arith, ◌==◌, if◌then◌else◌, codes,
}
use proxy_lane.CommandLine.{Text, AutomationOptions, no_options}
use proxy_lane.CommandLine.Quote.{
  backslash, quote, replicate, is_blank, quote_command_line_argument, build_automation_command_line,
}
use proxy_lane.CommandLine.Quote.Reading.{
  AtEnd, IsFree, IsDocumented, quote_command_line_argument-reads,
}
use proxy_lane.CommandLine.Quote.Building.{Splits, more_words, build_automation_command_line-Splits}

-- One argument and the rest, with the number of backslashes that wait.
read : Bool → ℕ → Text → Text × Text
read inside n [] = (replicate n backslash, [])
read inside n (c ∷ text) =
    let literal = n % 2 == 1 in
    let more =
      read (if c == quote then if literal then inside else not inside else inside)
        (if c == backslash then suc n else 0) text in
    if c == backslash
    then more
    else if c == quote
    then (replicate (n / 2) backslash ++ ((if literal then quote ∷ [] else []) ++ more.0), more.1)
    else if not inside && is_blank c
    then (replicate n backslash, c ∷ text)
    else (replicate n backslash ++ (c ∷ more.0), more.1)

abbrev Reads : Bool → Text → Text → Text → Type 0
Reads inside text argument rest = read inside 0 text ≡ (argument, rest)

read-backslashes :
    (inside : Bool) (n k : ℕ) (text : Text)
    → read inside k (replicate n backslash ++ text) ≡ read inside (n + k) text
unfolding read
read-backslashes inside zero k text = let e : zero + k ≡ k = omega arith in rw e
read-backslashes inside (suc n) k text =
    read-backslashes inside n (suc k) text ∙ ap (λ j. read inside j text) (omega arith)

read-free :
    (inside : Bool) (n : ℕ) (text : Text)
    → IsFree text
    → read inside n text ≡ (replicate n backslash ++ (read inside 0 text).0, (read inside 0 text).1)
unfolding read
read-free inside n [] h = ground (arith, append-nil (replicate n backslash))
read-free inside n (c ∷ text) h = ground (arith, h, append-nil (replicate n backslash))

read-ends : (text : Text) → AtEnd text → read false 0 text ≡ ([], text)
unfolding read
read-ends [] h = refl
read-ends (c ∷ text) h = ground (arith, h)

read-plain :
    (inside : Bool) (c : ℕ) (text : Text)
    → c ≢ backslash
    → c ≢ quote
    → (inside ≡ false → is_blank c ≡ false)
    → read inside 0 (c ∷ text) ≡ (c ∷ (read inside 0 text).0, (read inside 0 text).1)
unfolding read
read-plain inside c text b q h = ground (arith, b, q, h)

-- A quotation mark behind `k` backslashes.
read-even :
    (inside : Bool) (k n : ℕ) (text : Text)
    → k ≡ n * 2
    → read inside k (quote ∷ text)
      ≡ (replicate n backslash ++ (read (not inside) 0 text).0, (read (not inside) 0 text).1)
unfolding read
read-even inside k n text h =
    let half : k / 2 ≡ n = omega (arith, h) in
    let parity : (k % 2 == 1) ≡ false = ground (arith, h) in rw (parity, half)

read-odd :
    (inside : Bool) (k n : ℕ) (text : Text)
    → k ≡ n * 2 + 1
    → read inside k (quote ∷ text)
      ≡ (replicate n backslash ++ (quote ∷ (read inside 0 text).0), (read inside 0 text).1)
unfolding read
read-odd inside k n text h =
    let half : k / 2 ≡ n = omega (arith, h) in
    let parity : (k % 2 == 1) ≡ true = ground (arith, h) in rw (parity, half)

Reads-IsDocumented : IsDocumented Reads
Reads-IsDocumented = record {
  ends = read-ends;
  plain = λ inside c text argument rest b q h r.
      read-plain inside c text b q h ∙ ap (λ (x : Text × Text). (c ∷ x.0, x.1)) r;
  backslashes = λ inside n text argument rest free r.
      read-backslashes inside n 0 text
      ∙ read-free inside (n + 0) text free
      ∙ ap (λ k. (replicate k backslash ++ (read inside 0 text).0, (read inside 0 text).1))
          (omega arith)
      ∙ ap (λ (x : Text × Text). (replicate n backslash ++ x.0, x.1)) r;
  even = λ inside n text argument rest free r.
      read-backslashes inside (n * 2) 0 (quote ∷ text)
      ∙ read-even inside (n * 2 + 0) n text (omega arith)
      ∙ ap (λ (x : Text × Text). (replicate n backslash ++ x.0, x.1)) r;
  odd = λ inside n text argument rest r.
      read-backslashes inside (n * 2 + 1) 0 (quote ∷ text)
      ∙ read-odd inside (n * 2 + 1 + 0) n text (omega arith)
      ∙ ap (λ (x : Text × Text). (replicate n backslash ++ (quote ∷ x.0), x.1)) r;
}

-- A directory with a blank and a backslash at its end, and a text in quotation marks.
abbrev directory : Text
directory = codes "C:\\My Games\\"

abbrev spoken : Text
spoken = codes "say \"hi\""

quoted : quote_command_line_argument directory ≡ codes "\"C:\\My Games\\\\\""
unfolding quote_command_line_argument
quoted = refl

quote_command_line_argument-reads_example :
    Reads false (quote_command_line_argument spoken ++ codes " next") spoken (codes " next")
quote_command_line_argument-reads_example =
    quote_command_line_argument-reads Reads-IsDocumented (codes " next") refl spoken

abbrev options : AutomationOptions
options = record no_options {
  profile_name = codes "Home";
  target_path = directory;
  elevated = true;
}

build_automation_command_line-Splits_example :
    Splits Reads
      (build_automation_command_line options [] (spoken ∷ []))
      (codes "--auto" ∷ more_words options [] (spoken ∷ []))
build_automation_command_line-Splits_example =
    build_automation_command_line-Splits Reads-IsDocumented options [] (spoken ∷ []) refl
