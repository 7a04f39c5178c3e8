-- ===== src/Base64Url/RoundTrip.antt =====
-- Decoding what the encoder wrote, in src/ProxyLaneHook/ElevatedLaunchProtocol.h.
use proxy_lane.Common.{
  ℕ, ◌+◌, ◌*◌, ◌/◌, ◌%◌, ◌≤◌, ◌<◌, ◌≡◌, refl, false, some, List, [], ◌∷◌, arith, length, All,
  IsByte, or_shift2, or_shift4, or_shift6,
}
use proxy_lane.Base64Url.{
  encoded_length, decoded_length, encode_bytes, encode, decode_bytes, decode,
}
use proxy_lane.Base64Url.Digits.{digit_value-digit}

pub length-encode_bytes :
    (source : List ℕ) → length (encode_bytes source) ≡ encoded_length (length source)
unfolding encode_bytes encoded_length
length-encode_bytes [] = refl
length-encode_bytes (a ∷ []) = refl
length-encode_bytes (a ∷ b ∷ []) = refl
length-encode_bytes (a ∷ b ∷ c ∷ rest) = ground (arith, length-encode_bytes rest)

pub decoded_length-encoded_length : (n : ℕ) → decoded_length (encoded_length n) ≡ some n
unfolding decoded_length encoded_length
decoded_length-encoded_length n = ground arith

pub decode_bytes-encode_bytes :
    (source : List ℕ) → All IsByte source → decode_bytes (encode_bytes source) ≡ some source
unfolding decode_bytes encode_bytes
decode_bytes-encode_bytes [] h = refl
decode_bytes-encode_bytes (a ∷ []) h = ground (
  arith,
  digit_value-digit (a / 4),
  digit_value-digit (a % 4 * 16),
  or_shift2 (a / 4) (a % 4 * 16 / 16),
)
decode_bytes-encode_bytes (a ∷ b ∷ []) h = rw (or_shift4 (a % 4) (b / 16) (omega arith)) (
    ground (
      arith,
      digit_value-digit (a / 4),
      digit_value-digit (a % 4 * 16 + b / 16),
      digit_value-digit (b % 16 * 4),
      or_shift2 (a / 4) ((a % 4 * 16 + b / 16) / 16),
      or_shift4 (a % 4 * 16 + b / 16) (b % 16 * 4 / 4),
    ))
decode_bytes-encode_bytes (a ∷ b ∷ c ∷ rest) h =
    rw (or_shift4 (a % 4) (b / 16) (omega arith), or_shift2 (b % 16) (c / 64) (omega arith))
      (ground (
        arith,
        digit_value-digit (a / 4),
        digit_value-digit (a % 4 * 16 + b / 16),
        digit_value-digit (b % 16 * 4 + c / 64),
        digit_value-digit (c % 64),
        or_shift2 (a / 4) ((a % 4 * 16 + b / 16) / 16),
        or_shift4 (a % 4 * 16 + b / 16) ((b % 16 * 4 + c / 64) / 4),
        or_shift6 (b % 16 * 4 + c / 64) (c % 64),
        decode_bytes-encode_bytes rest,
      ))

pub encode_ok :
    (source : List ℕ) (size : ℕ) {text : List ℕ}
    → encode false source false size ≡ some text
    → (text ≡ encode_bytes source) × (encoded_length (length source) < size)
unfolding encode
encode_ok source size e = ground arith

-- Whatever bytes `encode` accepts, `decode` gives them back from its text, into any buffer that has
-- room for them.
pub decode-encode :
    (source : List ℕ) (text_size size : ℕ) {text : List ℕ}
    → All IsByte source
    → encode false source false text_size ≡ some text
    → length source ≤ size
    → decode false text false size ≡ some source
unfolding decode
decode-encode source text_size size h e room =
    rw
      (
        (encode_ok source text_size e).0,
        length-encode_bytes source,
        decoded_length-encoded_length (length source),
        decode_bytes-encode_bytes source h,
      )
      (ground arith)

-- Where the text fits with its NUL, `encode` succeeds with good pointers, and the text has
-- `encoded_length` characters.
encode_total :
    (source : List ℕ) (size : ℕ)
    → encoded_length (length source) < size
    → (text : List ℕ) × (encode false source false size ≡ some text)
      × (length text ≡ encoded_length (length source))
unfolding encode
encode_total source size h = (encode_bytes source, ground arith, length-encode_bytes source)
