-- ===== src/Common/Text.antt =====
-- C strings as the bytes before the NUL, and the C library's comparison without case (C locale).
use Prim.Native.Nat.{ℕ, ◌+◌}
use Prim.Native.Char.{code}
use Prim.Native.String.{String}
use mathlib.Core.Bool.{Bool, ◌&&◌}
use mathlib.Core.Path.{◌≡◌}
use mathlib.Core.List.{List, [], ◌∷◌, map}
use proxy_lane.Common.Tests.{leb, if◌then◌else◌}
use proxy_lane.Common.Lists.{bytes_eq, bytes_eq_sym}

abbrev pub codes : String → List ℕ
codes String.[] = []
codes (String.◌∷◌ first others) = code first ∷ codes others

abbrev pub to_lower : ℕ → ℕ
to_lower char = if leb b'A' char && leb char b'Z' then char + 32 else char

-- `_stricmp(left, right) == 0`.
abbrev pub same_text : List ℕ → List ℕ → Bool
same_text left right = bytes_eq (map to_lower left) (map to_lower right)

pub same_text_sym : (l r : List ℕ) → same_text l r ≡ same_text r l
same_text_sym l r = bytes_eq_sym (map to_lower l) (map to_lower r)
