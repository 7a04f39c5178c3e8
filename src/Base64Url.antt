-- ===== src/Base64Url.antt =====
-- Unpadded Base64URL of src/ProxyLaneHook/ElevatedLaunchProtocol.h: the request that the UI hands
-- to the elevated rundll32. A buffer is a list of bytes; `destination` is what was written to it.
pub mod Digits
pub mod RoundTrip
pub mod Canonical
mod Tests
use proxy_lane.Common.{
  ◌>>=◌, ◌>>◌, codes, ℕ, ◌+◌, ◌-◌, ◌*◌, ◌/◌, ◌%◌, bit_or, Bool, ◌&&◌, ◌||◌, not, Option, none, some,
  List, [], ◌∷◌, leb, ◌==◌, if◌then◌else◌, guard, length, get_or,
}

abbrev pub alphabet : List ℕ
alphabet = codes "ABCDEFGHIJKLMNOPQRSTUVWXYZabcdefghijklmnopqrstuvwxyz0123456789-_"

-- `alphabet[i]`; every index that the encoder forms is below 64.
unfoldable pub digit : ℕ → ℕ
digit i = get_or alphabet i 0

unfoldable pub encoded_length : ℕ → ℕ
encoded_length source_size =
    let remainder = source_size % 3 in
    source_size / 3 * 4 + (if remainder == 0 then 0 else remainder + 1)

-- `none` is `static_cast<size_t>(-1)`.
pub decoded_length : ℕ → Option ℕ
decoded_length source_length =
    let remainder = source_length % 4 in
    if remainder == 1
    then none
    else some (source_length / 4 * 3 + (if remainder == 0 then 0 else remainder - 1))

-- `none` is -1.
unfoldable pub digit_value : ℕ → Option ℕ
digit_value value =
    if leb b'A' value && leb value b'Z'
    then some (value - b'A')
    else if leb b'a' value && leb value b'z'
    then some (value - b'a' + 26)
    else if leb b'0' value && leb value b'9'
    then some (value - b'0' + 52)
    else if value == b'-'
    then some 62
    else if value == b'_'
    then some 63
    else none

-- The characters that the loop and the remainder branch write.
unfoldable pub encode_bytes : List ℕ → List ℕ
encode_bytes [] = []
encode_bytes (first ∷ []) = digit (first / 4) ∷ digit (first % 4 * 16) ∷ []
encode_bytes (first ∷ second ∷ []) =
    digit (first / 4) ∷ digit (bit_or (first % 4 * 16) (second / 16)) ∷ digit (second % 16 * 4) ∷ []
encode_bytes (first ∷ second ∷ third ∷ rest) =
    digit (first / 4)
    ∷ digit (bit_or (first % 4 * 16) (second / 16))
    ∷ digit (bit_or (second % 16 * 4) (third / 64))
    ∷ digit (third % 64)
    ∷ encode_bytes rest

-- The text without its terminating NUL, which takes the one more place that the test of
-- `destination_size` asks for. `none` is FALSE.
unfoldable pub encode : Bool → List ℕ → Bool → ℕ → Option (List ℕ)
encode source_null source destination_null destination_size =
    if (source_null && not (length source == 0))
      || destination_null
      || leb destination_size (encoded_length (length source))
    then none
    else some (encode_bytes source)

-- The four-character loop and the remainder branch. A remainder of one character does not come
-- here: `decode` refuses it first.
unfoldable pub decode_bytes : List ℕ → Option (List ℕ)
decode_bytes [] = some []
decode_bytes (c0 ∷ []) = none
decode_bytes (c0 ∷ c1 ∷ []) = do
  first ← digit_value c0
  second ← digit_value c1
  guard (second % 16 == 0)
  some ((bit_or (first * 4) (second / 16) % 256) ∷ [])
decode_bytes (c0 ∷ c1 ∷ c2 ∷ []) = do
  first ← digit_value c0
  second ← digit_value c1
  third ← digit_value c2
  guard (third % 4 == 0)
  some ((bit_or (first * 4) (second / 16) % 256) ∷ (bit_or (second * 16) (third / 4) % 256) ∷ [])
decode_bytes (c0 ∷ c1 ∷ c2 ∷ c3 ∷ rest) = do
  first ← digit_value c0
  second ← digit_value c1
  third ← digit_value c2
  fourth ← digit_value c3
  bytes ← decode_bytes rest
  some (
      (bit_or (first * 4) (second / 16) % 256)
      ∷ (bit_or (second * 16) (third / 4) % 256)
      ∷ (bit_or (third * 64) fourth % 256)
      ∷ bytes)

-- `none` is FALSE; a null source is refused whatever its length.
pub decode : Bool → List ℕ → Bool → ℕ → Option (List ℕ)
decode source_null source destination_null destination_size = do
  required_length ← decoded_length (length source)
  guard (not source_null)
  guard (not (destination_null && not (required_length == 0)))
  guard (leb required_length destination_size)
  bytes ← decode_bytes source
  guard (length bytes == required_length)
  some bytes
