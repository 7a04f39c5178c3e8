-- ===== src/ProfileStore/Tests.antt =====
-- A rule list of two lines, and one whose first line is a directory.
use proxy_lane.Common.{ℕ, ◌≡◌, refl, ◌↔◌, List, codes}
use proxy_lane.ProfileStore.{replace_crlf, replace, line_feeds, pack, encode_filter, decode_filter}
use proxy_lane.ProfileStore.Filter.{joined, shown, swallowed, decode_filter-encode_filter}

abbrev rules : List ℕ
rules = codes "a|b\r\nc.exe"

abbrev directory : List ℕ
directory = codes "C:\\bin\\\r\nc.exe"

encode_filter-rules : encode_filter rules ≡ codes "a\\|b|c.exe"
unfolding encode_filter line_feeds pack replace_crlf replace
encode_filter-rules = refl

-- The two lines come back as one.
decode_filter-directory : decode_filter (encode_filter directory) ≡ codes "C:\\bin|c.exe"
unfolding encode_filter decode_filter line_feeds pack replace_crlf replace
decode_filter-directory = refl

decode_filter-encode_filter_example :
    (decode_filter (encode_filter directory) ≡ joined (line_feeds directory))
    × ((decode_filter (encode_filter directory) ≡ shown (line_feeds directory))
        ↔ (swallowed (line_feeds directory) ≡ 0))
decode_filter-encode_filter_example = decode_filter-encode_filter directory
