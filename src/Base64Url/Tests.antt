-- ===== src/Base64Url/Tests.antt =====
-- Runs of the codec on small inputs.
use proxy_lane.Common.{ℕ, ◌≡◌, refl, false, some, List, [], ◌∷◌, arith}
use proxy_lane.Base64Url.{
  digit, digit_value, encoded_length, decoded_length, encode_bytes, encode, decode_bytes, decode,
}
use proxy_lane.Base64Url.Canonical.{encode-decode}

-- `hi!`.
abbrev hi : List ℕ
hi = 104 ∷ 105 ∷ 33 ∷ []

-- `aGkh`.
abbrev hi_text : List ℕ
hi_text = 97 ∷ 71 ∷ 107 ∷ 104 ∷ []

encode-hi : encode false hi false 5 ≡ some hi_text
unfolding encode encode_bytes encoded_length digit
encode-hi = refl

decode-hi : decode false hi_text false 3 ≡ some hi
unfolding decode decode_bytes decoded_length digit_value
decode-hi = refl

encode-decode_example : encode false hi false 5 ≡ some hi_text
encode-decode_example = encode-decode hi_text hi 3 5 decode-hi (omega arith)
