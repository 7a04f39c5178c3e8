-- ===== src/IniFile.antt =====
-- The INI file: ReadIniBuffer, WriteSection and ReadSection of src/ProxyLane/IniFile.cpp. What the
-- profile functions of Windows answer is a parameter.
pub mod Sections
pub mod Buffer
mod Tests
use proxy_lane.Common.{
  ◌>>=◌, ◌>>◌, ℕ, zero, suc, ◌-◌, ◌*◌, ◌⊎◌, inl, inr, Bool, true, false, not, ◌&&◌, ◌||◌, Option,
  none, some, List, [], ◌∷◌, ◌++◌, ltb, ◌==◌, if◌then◌else◌, guard, length,
}

abbrev pub Text : Type 0
Text = List ℕ

abbrev pub has : ℕ → Text → Bool
has c [] = false
has c (d ∷ s) = d == c || has c s

abbrev pub is_empty : Text → Bool
is_empty [] = true
is_empty (c ∷ s) = false

abbrev pub equals_sign : ℕ
equals_sign = b'='

abbrev pub has_line_end : Text → Bool
has_line_end s = has 13 s || has 10 s

abbrev pub is_writable : Text × Text → Bool
is_writable e =
    not (is_empty e.0)
    && not (has equals_sign e.0)
    && not (has_line_end e.0)
    && not (has_line_end e.1)

-- The loop of WriteSection, where every entry can be written.
unfoldable pub lines : List (Text × Text) → Option (List ℕ)
lines [] = some []
lines (e ∷ es) = do
  guard (is_writable e)
  rest ← lines es
  some (e.0 ++ (equals_sign ∷ (e.1 ++ (0 ∷ rest))))

-- The buffer that WriteSection hands to the system, if it does.
unfoldable pub write_section : List (Text × Text) → Option (List ℕ)
unfolding lines
write_section values = do
  written ← lines values
  let buffer = written ++ (if length values == 0 then 0 ∷ 0 ∷ [] else 0 ∷ [])
  guard (not (ltb 65534 (length buffer * 2)))
  some buffer

abbrev pub push : ℕ → List Text → List Text
push c [] = (c ∷ []) ∷ []
push c (item ∷ items) = (c ∷ item) ∷ items

-- The items of a buffer, up to the empty one; `fresh` says that an item begins.
unfoldable pub items : Bool → List ℕ → List Text
items true [] = []
items false [] = [] ∷ []
items fresh (c ∷ s) =
    let inside = items false s in
    let next = items true s in if c == 0 then if fresh then [] else [] ∷ next else push c inside

-- An item at its first equals sign.
unfoldable pub separate : Text → Option (Text × Text)
separate [] = none
separate (c ∷ s) =
    let rest = separate s in
    if c == equals_sign
    then some ([], s)
    else elim rest [ none ↦ none | some e ↦ some (c ∷ e.0, e.1) ]

-- The assignments to the map, in their order.
unfoldable pub assignments : List Text → List (Text × Text)
unfolding separate
assignments [] = []
assignments (item ∷ rest) =
    let others = assignments rest in elim (separate item) [ none ↦ others | some e ↦ e ∷ others ]

-- The loop of ReadSection on its buffer.
unfoldable pub read_section : List ℕ → List (Text × Text)
unfolding items assignments
read_section buffer = assignments (items true buffer)

-- GetLastError and the number of characters, for a buffer of the size.
abbrev pub Answer : Type 0
Answer = ℕ → ℕ × ℕ

abbrev pub max_ini_characters : ℕ
max_ini_characters = 1024 * 1024

abbrev pub is_missing : ℕ → Bool
is_missing error = error == 2 || error == 3

-- The loop of ReadIniBuffer on fuel: the size of the buffer that was enough, `inr none` for FALSE, and
-- `inl` where the fuel runs out.
unfoldable pub read_loop : Answer → ℕ → ℕ → ℕ → Unit {0} ⊎ Option ℕ
read_loop ask reserve zero size = inl tt
read_loop ask reserve (suc fuel) size =
    let rest = read_loop ask reserve fuel (size * 2) in
    if ltb max_ini_characters size
    then inr none
    else if (ask size).1 == 0 && not ((ask size).0 == 0) && not (is_missing (ask size).0)
    then inr none
    else if ltb (ask size).1 (size - reserve)
    then inr (some size)
    else rest

unfoldable pub read_ini_buffer : Answer → Bool → Unit {0} ⊎ Option ℕ
unfolding read_loop
read_ini_buffer ask whole = read_loop ask (if whole then 2 else 1) 13 512
