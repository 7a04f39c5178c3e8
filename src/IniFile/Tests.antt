-- ===== src/IniFile/Tests.antt =====
-- A section with two keys, and a content of six hundred characters.
use proxy_lane.Common.{
  ℕ, ◌-◌, ◌≡◌, refl, inr, true, some, List, [], ◌∷◌, ◌++◌, ltb, if◌then◌else◌, codes,
}
use proxy_lane.IniFile.{
  Text, lines, write_section, read_section, Answer, read_loop, read_ini_buffer,
}
use proxy_lane.IniFile.Sections.{read_section-write_section}

abbrev values : List (Text × Text)
values = (codes "HookTCP", codes "1") ∷ (codes "Rule", codes "a=b") ∷ []

abbrev buffer : List ℕ
buffer = codes "HookTCP=1" ++ (0 ∷ (codes "Rule=a=b" ++ (0 ∷ 0 ∷ [])))

write_section-values : write_section values ≡ some buffer
unfolding write_section lines
write_section-values = refl

read_section-write_section_example : read_section buffer ≡ values
read_section-write_section_example =
    read_section-write_section values buffer write_section-values ((refl, refl), ((refl, refl), tt))

abbrev answer : Answer
answer size = (0, if ltb 600 (size - 2) then 600 else size - 2)

read-answer : read_ini_buffer answer true ≡ inr (some 1024)
unfolding read_ini_buffer read_loop
read-answer = refl
