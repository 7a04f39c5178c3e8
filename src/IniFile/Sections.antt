-- ===== src/IniFile/Sections.antt =====
-- What WriteSection of src/ProxyLane/IniFile.cpp lays out, and ReadSection takes apart.
use proxy_lane.Common.{
  if◌then◌else◌, ◌==◌, length, sym, ap, ◌∙◌, inr, inl, Option-cases, All, ◌||◌, ℕ, ◌≡◌, refl, Bool,
  true, false, some, List, [], ◌∷◌, ◌++◌, arith,
}
use proxy_lane.IniFile.{
  read_section, write_section, is_writable, assignments, lines, Text, has, is_empty, equals_sign,
  items, separate,
}

-- A text without a NUL.
abbrev pub IsText : Text → Type 0
IsText s = has 0 s ≡ false

items-text :
    (s rest : List ℕ) (fresh : Bool)
    → IsText s
    → (fresh ≡ true → is_empty s ≡ false)
    → items fresh (s ++ (0 ∷ rest)) ≡ s ∷ items true rest
unfolding items
items-text [] rest true h n = absurd (ground (arith, n))
items-text [] rest false h n = refl
items-text (c ∷ s) rest fresh h n =
    ground (arith, h, items-text s rest false (ground (arith, h)) (λ e. ground (arith, e)))

separate-text :
    (key value : Text)
    → has equals_sign key ≡ false
    → separate (key ++ (equals_sign ∷ value)) ≡ some (key, value)
unfolding separate
separate-text [] value h = refl
separate-text (c ∷ s) value h = ground (arith, h, separate-text s value)

has-append : (c : ℕ) (a b : Text) → has c (a ++ b) ≡ has c a || has c b
has-append c [] b = refl
has-append c (d ∷ a) b = ground (arith, has-append c a b)

abbrev pub IsEntry : Text × Text → Type 0
IsEntry e = IsText e.0 × IsText e.1

item_of : Text × Text → Text
item_of e = e.0 ++ (equals_sign ∷ e.1)

lines-cons :
    (e : Text × Text) (es : List (Text × Text)) (written : List ℕ)
    → lines (e ∷ es) ≡ some written
    → (rest : List ℕ) × (lines es ≡ some rest)
      × (is_writable e ≡ true)
      × (e.0 ++ (equals_sign ∷ (e.1 ++ (0 ∷ rest))) ≡ written)
unfolding lines
lines-cons e es written h = elim (Option-cases (lines es)) [
  | inl n ↦ absurd (ground (arith, n, h))
  | inr (rest, p) ↦ (rest, p, ground (arith, p, h), ground (arith, p, h))
]

layout-value :
    (value rest after : List ℕ)
    → (value ++ (0 ∷ rest)) ++ (0 ∷ after) ≡ value ++ (0 ∷ (rest ++ (0 ∷ after)))
layout-value [] rest after = refl
layout-value (c ∷ value) rest after = ap (◌∷◌ c) (layout-value value rest after)

-- One entry of the buffer before the others.
layout :
    (key value rest after : List ℕ)
    → (key ++ (equals_sign ∷ (value ++ (0 ∷ rest)))) ++ (0 ∷ after)
      ≡ (key ++ (equals_sign ∷ value)) ++ (0 ∷ (rest ++ (0 ∷ after)))
layout [] value rest after = ap (◌∷◌ equals_sign) (layout-value value rest after)
layout (c ∷ key) value rest after = ap (◌∷◌ c) (layout key value rest after)

item_of-IsText : (e : Text × Text) → IsEntry e → IsText (item_of e)
unfolding item_of
item_of-IsText e k = ground (arith, k, has-append 0 e.0 (equals_sign ∷ e.1))

item_of-is_empty : (e : Text × Text) → is_empty (item_of e) ≡ false
unfolding item_of
item_of-is_empty ([], value) = refl
item_of-is_empty (c ∷ key, value) = refl

separate-item_of : (e : Text × Text) → is_writable e ≡ true → separate (item_of e) ≡ some e
unfolding item_of
separate-item_of e w = separate-text e.0 e.1 (ground (arith, w))

assignments-cons :
    (item : Text) (e : Text × Text) (rest : List Text) (es : List (Text × Text))
    → separate item ≡ some e
    → assignments rest ≡ es
    → assignments (item ∷ rest) ≡ e ∷ es
unfolding assignments
assignments-cons item e rest es h k = ground (arith, h, k)

lines-assignments :
    (es : List (Text × Text)) (written after : List ℕ)
    → lines es ≡ some written
    → All IsEntry es
    → assignments (items true (written ++ (0 ∷ after))) ≡ es
lines-assignments [] written after h k =
    let e : [] ≡ written = unfold lines in ground (arith, h) in
    rw (sym e) (unfold items assignments in refl)
lines-assignments (e ∷ es) written after h k =
    let (rest, p, w, made) = lines-cons e es written h in
    let whole : written ++ (0 ∷ after) ≡ item_of e ++ (0 ∷ (rest ++ (0 ∷ after))) =
      ap (λ l. l ++ (0 ∷ after)) (sym made) ∙ unfold item_of in layout e.0 e.1 rest after in
    let first =
      items-text (item_of e) (rest ++ (0 ∷ after)) true (item_of-IsText e k.0)
        (λ _. item_of-is_empty e) in
    let others = lines-assignments es rest after p k.1 in
    let read = separate-item_of e w in
    ap (λ l. assignments (items true l)) whole
    ∙ ap assignments first
    ∙ assignments-cons (item_of e) e (items true (rest ++ (0 ∷ after))) es read others

-- The buffer that WriteSection hands to the system is taken apart by ReadSection into the same keys
-- and values, in their order, where none of them holds a NUL; an empty section stays one.
pub read_section-write_section :
    (values : List (Text × Text)) (buffer : List ℕ)
    → write_section values ≡ some buffer
    → All IsEntry values
    → read_section buffer ≡ values
unfolding write_section read_section
read_section-write_section values buffer h k = elim (Option-cases (lines values)) [
  | inl n ↦ absurd (ground (arith, n, h))
  | inr (written, p) ↦
      let after : List ℕ = if length values == 0 then 0 ∷ [] else [] in
      let made : written ++ (0 ∷ after) ≡ buffer = ground (arith, p, h) in
      ap (λ b. assignments (items true b)) (sym made) ∙ lines-assignments values written after p k
]
