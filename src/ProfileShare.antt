-- ===== src/ProfileShare.antt =====
-- The text of a shared profile: src/ProxyLane/ProfileShareCodec.h. The JSON inside it is the bytes
-- that the library writes and reads; Validate, which looks into it, is not modelled. The digits and
-- their values are those of Base64Url.
mod Reading
pub mod Groups
pub mod Text
mod Tests
use proxy_lane.Common.{
  ◌>>=◌, ◌>>◌, ℕ, zero, suc, ◌+◌, ◌-◌, ◌*◌, ◌/◌, ◌%◌, ◌^◌, bit_or, ◌⊎◌, inl, inr, Bool, true, false,
  not, ◌&&◌, ◌||◌, Option, none, some, List, [], ◌∷◌, ◌++◌, ltb, leb, ◌==◌, if◌then◌else◌, length,
  take, drop, bytes_eq, codes,
}
use proxy_lane.Base64Url.{digit, digit_value}

-- The keys of the messages.
pub data Error : Type 0 where
  too_large invalid_code unsupported_version : Error

abbrev pub max_code_bytes : ℕ
max_code_bytes = 256 * 1024

abbrev pub max_json_bytes : ℕ
max_json_bytes = 192 * 1024

abbrev pub prefix : List ℕ
prefix = codes "proxylane://profile/v1/"

abbrev pub any_version : List ℕ
any_version = codes "proxylane://profile/v"

-- The inner loop of Base64Url, on fuel: the digits that it appends, and the count that is left.
unfoldable pub drain : ℕ → ℕ → ℕ → List ℕ × ℕ
drain zero bits count = ([], count)
drain (suc fuel) bits count =
    let rest = drain fuel bits (count - 6) in
    if leb 6 count then (digit (bits / 2 ^ (count - 6) % 64) ∷ rest.0, rest.1) else ([], count)

-- The loop, where `bits` is an unsigned of 32 bits, and the digit after it.
unfoldable pub encode_loop : ℕ → ℕ → List ℕ → List ℕ
unfolding drain
encode_loop bits count [] =
    if count == 0 then [] else digit (bits * 2 ^ (6 - count) % 2 ^ 32 % 64) ∷ []
encode_loop bits count (ch ∷ input) =
    let bits' = bit_or (bits * 256 % 2 ^ 32) ch in
    let drained = drain (count + 8) bits' (count + 8) in
    drained.0 ++ encode_loop bits' drained.1 input

unfoldable pub base64_url : List ℕ → List ℕ
unfolding encode_loop
base64_url input = encode_loop 0 0 input

-- Encode, from the JSON's bytes on.
unfoldable pub encode : List ℕ → Error ⊎ List ℕ
unfolding base64_url
encode json =
    let result = prefix ++ base64_url json in
    if ltb max_json_bytes (length json)
    then inl too_large
    else if ltb max_code_bytes (length result)
    then inl too_large
    else inr result

abbrev pub is_blank : ℕ → Bool
is_blank c = c == b' ' || c == 9 || c == 13 || c == 10

-- `substr` from find_first_not_of to find_last_not_of.
unfoldable pub trim_left : List ℕ → List ℕ
trim_left [] = []
trim_left (c ∷ s) = if is_blank c then trim_left s else c ∷ s

abbrev pub is_empty : List ℕ → Bool
is_empty [] = true
is_empty (c ∷ s) = false

unfoldable pub trim_right : List ℕ → List ℕ
trim_right [] = []
trim_right (c ∷ s) = let rest = trim_right s in if is_blank c && is_empty rest then [] else c ∷ rest

-- `compare(0, n, text) == 0`: the first n characters are the text.
unfoldable pub compares : ℕ → List ℕ → List ℕ → Bool
compares n text code = bytes_eq (take n code) text

-- Before a byte is appended, the count that is left.
abbrev pub left_of : ℕ → ℕ
left_of count = if leb 8 count then count - 8 else count

abbrev pub appended : ℕ → ℕ → List ℕ
appended bits count = if leb 8 count then (bits / 2 ^ (count - 8) % 256) ∷ [] else []

-- The loop of Decode: the bytes, the bits and their count; none is an error.
unfoldable pub decode_loop : ℕ → ℕ → List ℕ → Option (List ℕ × ℕ × ℕ)
decode_loop bits count [] = some ([], bits, count)
decode_loop bits count (ch ∷ encoded) = do
  n ← digit_value ch
  let bits' = bit_or (bits * 64 % 2 ^ 32) n
  rest ← decode_loop bits' (left_of (count + 6)) encoded
  some (appended bits' (count + 6) ++ rest.0, rest.1, rest.2)

-- The test after the loop: the bits that are left over are zero.
unfoldable pub no_rest : Option (List ℕ × ℕ × ℕ) → Option (List ℕ)
no_rest none = none
no_rest (some r) = if not (r.2 == 0) && not (r.1 % 2 ^ r.2 == 0) then none else some r.0

abbrev pub or_invalid : Option (List ℕ) → Error ⊎ List ℕ
or_invalid none = inl invalid_code
or_invalid (some json) = if ltb max_json_bytes (length json) then inl invalid_code else inr json

-- Decode on the code without the blanks around it, up to the JSON's bytes.
unfoldable pub decode_trimmed : List ℕ → Error ⊎ List ℕ
unfolding compares decode_loop no_rest
decode_trimmed code =
    let encoded = drop (length prefix) code in
    if not (compares (length prefix) prefix code)
    then inl (if compares 20 any_version code then unsupported_version else invalid_code)
    else if is_empty encoded || length encoded % 4 == 1
    then inl invalid_code
    else or_invalid (no_rest (decode_loop 0 0 encoded))

unfoldable pub decode : List ℕ → Error ⊎ List ℕ
unfolding trim_left trim_right decode_trimmed
decode code =
    if ltb max_code_bytes (length code)
    then inl too_large
    else if is_empty (trim_left code)
    then inl invalid_code
    else decode_trimmed (trim_right (trim_left code))
