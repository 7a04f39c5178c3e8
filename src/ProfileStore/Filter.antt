-- ===== src/ProfileStore/Filter.antt =====
-- The rule lists of src/ProxyLane/ProxyProfileStore.cpp, there and back.
use proxy_lane.Common.{
  ◌*◌, length, ap, ◌↔◌, ℕ, ◌+◌, ◌≡◌, refl, ◌≢◌, ◌&&◌, List, [], ◌∷◌, ◌++◌, arith, ◌==◌,
  if◌then◌else◌,
}
use proxy_lane.ProfileStore.{
  line_feeds, encode_filter, cr, lf, bar, backslash, replace, pack, decode_filter,
}

-- The line ends that a backslash stands right before.
abbrev pub swallowed : List ℕ → ℕ
swallowed [] = 0
swallowed (c ∷ []) = 0
swallowed (c ∷ d ∷ s) = (if c == backslash && d == lf then 1 else 0) + swallowed (d ∷ s)

-- What the edit control shows: each line feed with its carriage return.
abbrev pub shown : List ℕ → List ℕ
shown text = replace lf (cr ∷ lf ∷ []) text

pack-cons :
    (c : ℕ) (s : List ℕ)
    → pack (c ∷ s)
      ≡ (if c == lf then bar ∷ [] else if c == bar then backslash ∷ bar ∷ [] else c ∷ []) ++ pack s
unfolding pack replace
pack-cons c s = ground arith

decode-bar : (s : List ℕ) → decode_filter (bar ∷ s) ≡ cr ∷ lf ∷ decode_filter s
unfolding decode_filter
decode-bar [] = refl
decode-bar (d ∷ s) = refl

decode-escaped : (s : List ℕ) → decode_filter (backslash ∷ bar ∷ s) ≡ bar ∷ decode_filter s
unfolding decode_filter
decode-escaped s = refl

decode-other :
    (c d : ℕ) (s : List ℕ)
    → c ≢ bar
    → (c ≡ backslash → d ≢ bar)
    → decode_filter (c ∷ d ∷ s) ≡ c ∷ decode_filter (d ∷ s)
unfolding decode_filter
decode-other c d s h k = ground arith

shown-cons :
    (c : ℕ) (s : List ℕ) → shown (c ∷ s) ≡ (if c == lf then cr ∷ lf ∷ [] else c ∷ []) ++ shown s
unfolding replace
shown-cons c s = ground arith

decode-pack : (s : List ℕ) → swallowed s ≡ 0 → decode_filter (pack s) ≡ shown s
decode-pack [] h = unfold pack replace decode_filter in refl
decode-pack (c ∷ []) h = unfold pack replace decode_filter in ground arith
decode-pack (c ∷ d ∷ s) h = ground (
  arith,
  pack-cons c (d ∷ s),
  pack-cons d s,
  shown-cons c (d ∷ s),
  decode-bar (pack (d ∷ s)),
  decode-escaped (pack (d ∷ s)),
  decode-other c bar (pack s),
  decode-other c backslash (bar ∷ pack s),
  decode-other c d (pack s),
  decode-pack (d ∷ s),
)

swallowed-lf : (s : List ℕ) → swallowed (lf ∷ s) ≡ swallowed s
swallowed-lf [] = refl
swallowed-lf (d ∷ s) = omega arith

length-decode-pack :
    (s : List ℕ) → length (decode_filter (pack s)) + 2 * swallowed s ≡ length (shown s)
length-decode-pack [] = unfold pack replace decode_filter in refl
length-decode-pack (c ∷ []) = unfold pack replace decode_filter in ground arith
length-decode-pack (c ∷ d ∷ s) = ground (
  arith,
  pack-cons c (d ∷ s),
  pack-cons d s,
  shown-cons c (d ∷ s),
  shown-cons d s,
  swallowed-lf s,
  decode-bar (pack (d ∷ s)),
  decode-escaped (pack (d ∷ s)),
  decode-escaped (pack s),
  decode-other c bar (pack s),
  decode-other c backslash (bar ∷ pack s),
  decode-other c d (pack s),
  length-decode-pack (d ∷ s),
  length-decode-pack s,
)

-- What is read back: a backslash with the line feed behind it is a bar, any other line feed is what
-- the edit control shows.
pub joined : List ℕ → List ℕ
joined [] = []
joined (c ∷ []) = if c == lf then cr ∷ lf ∷ [] else c ∷ []
joined (c ∷ d ∷ s) =
    let rest = joined (d ∷ s) in
    let skipped = joined s in
    if c == backslash && d == lf
    then bar ∷ skipped
    else if c == lf
    then cr ∷ lf ∷ rest
    else c ∷ rest

decode-pack-joined : (s : List ℕ) → decode_filter (pack s) ≡ joined s
unfolding joined
decode-pack-joined [] = unfold pack replace decode_filter in refl
decode-pack-joined (c ∷ []) = unfold pack replace decode_filter in ground arith
decode-pack-joined (c ∷ d ∷ s) = ground (
  arith,
  pack-cons c (d ∷ s),
  pack-cons d s,
  decode-bar (pack (d ∷ s)),
  decode-escaped (pack (d ∷ s)),
  decode-escaped (pack s),
  decode-other c bar (pack s),
  decode-other c backslash (bar ∷ pack s),
  decode-other c d (pack s),
  decode-pack-joined (d ∷ s),
  decode-pack-joined s,
)

-- A rule list comes back from its packed form as it was, but that each line end is what the edit
-- control shows, and that a backslash at the end of a line that another follows is, with the line
-- end, a bar, which makes the two lines one. So it comes back with all its lines exactly when no
-- line that another follows ends in a backslash.
pub decode_filter-encode_filter :
    (text : List ℕ)
    → (decode_filter (encode_filter text) ≡ joined (line_feeds text))
      × ((decode_filter (encode_filter text) ≡ shown (line_feeds text))
          ↔ (swallowed (line_feeds text) ≡ 0))
unfolding encode_filter
decode_filter-encode_filter text = (
  decode-pack-joined (line_feeds text),
  (
    λ e. omega (arith, ap length e, length-decode-pack (line_feeds text)),
    decode-pack (line_feeds text),
  ),
)
