-- ===== src/ProfileStore.antt =====
-- How a profile's rule lists are packed into one line of the INI file: EncodeFilter and DecodeFilter
-- of src/ProxyLane/ProxyProfileStore.cpp. A text is the list of its code units.
pub mod Filter
mod Tests
use proxy_lane.Common.{ℕ, true, false, ◌&&◌, List, [], ◌∷◌, ◌++◌, ◌==◌, if◌then◌else◌}

abbrev pub cr : ℕ
cr = 13

abbrev pub lf : ℕ
lf = 10

abbrev pub bar : ℕ
bar = b'|'

abbrev pub backslash : ℕ
backslash = b'\\'

-- `Replace(_T("\r\n"), _T("\n"))`.
unfoldable pub replace_crlf : List ℕ → List ℕ
replace_crlf [] = []
replace_crlf (c ∷ []) = c ∷ []
replace_crlf (c ∷ d ∷ s) = elim (c == cr && d == lf) [
  | true ↦ lf ∷ replace_crlf s
  | false ↦ c ∷ replace_crlf (d ∷ s)
]

-- `Replace` of one character.
unfoldable pub replace : ℕ → List ℕ → List ℕ → List ℕ
replace from to [] = []
replace from to (c ∷ s) = let rest = replace from to s in if c == from then to ++ rest else c ∷ rest

-- The text with line feeds alone, after the first two replacements.
unfoldable pub line_feeds : List ℕ → List ℕ
unfolding replace_crlf replace
line_feeds text = replace cr (lf ∷ []) (replace_crlf text)

unfoldable pub pack : List ℕ → List ℕ
unfolding replace
pack text = replace lf (bar ∷ []) (replace bar (backslash ∷ bar ∷ []) text)

unfoldable pub encode_filter : List ℕ → List ℕ
unfolding line_feeds pack
encode_filter multi_line = pack (line_feeds multi_line)

unfoldable pub decode_filter : List ℕ → List ℕ
decode_filter [] = []
decode_filter (c ∷ []) = if c == bar then cr ∷ lf ∷ [] else c ∷ []
decode_filter (c ∷ d ∷ s) = elim (c == backslash && d == bar) [
  | true ↦ bar ∷ decode_filter s
  | false ↦ (if c == bar then cr ∷ lf ∷ [] else c ∷ []) ++ decode_filter (d ∷ s)
]
