-- ===== src/IniFile/Buffer.antt =====
-- How ReadIniBuffer of src/ProxyLane/IniFile.cpp grows its buffer.
use proxy_lane.Common.{inr, Bool, none, some, inr, Bool, Option, ◌⊎◌, ℕ, ◌-◌, ◌≤◌, ◌<◌, ◌≡◌}
use proxy_lane.IniFile.{max_ini_characters, Answer}

-- The documented answer for a content of so many characters: all of it where it fits with what
-- ends it, and else as much as fits.
abbrev pub Documented : Answer → ℕ → ℕ → Type 0
Documented ask reserve total =
    (size : ℕ)
    → ((ask size).0 ≡ 0)
      × (total < size - reserve → (ask size).1 ≡ total)
      × (size - reserve ≤ total → (ask size).1 ≡ size - reserve)

-- What the loop returns for a content: the buffer's size, with room for it, or FALSE.
abbrev pub Reads : ℕ → ℕ → Unit {0} ⊎ Option ℕ → Type 0
Reads reserve total r =
    (total < max_ini_characters - reserve
      → (size : ℕ) × (r ≡ inr (some size)) × (total < size - reserve))
    × (max_ini_characters - reserve ≤ total → r ≡ inr none)
