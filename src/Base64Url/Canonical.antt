-- ===== src/Base64Url/Canonical.antt =====
-- The decoder of src/ProxyLaneHook/ElevatedLaunchProtocol.h accepts one text for each byte string.
use proxy_lane.Common.{
  ◌⊎◌, ℕ, ◌+◌, ◌*◌, ◌/◌, ◌%◌, ◌<◌, ◌≡◌, ap, bit_or, false, none, some, List, [], ◌∷◌, arith, length,
  All, IsByte, or_shift2, or_shift4, or_shift6, inl, inr, Option-cases,
}
use proxy_lane.Base64Url.{
  digit, digit_value, decoded_length, encode_bytes, encode, decode_bytes, decode,
}
use proxy_lane.Base64Url.RoundTrip.{length-encode_bytes}
use proxy_lane.Base64Url.Digits.{digit_value_inv}

pub digit_value_cases :
    (c : ℕ)
    → (digit_value c ≡ none) ⊎ ((v : ℕ) × (digit_value c ≡ some v) × (v < 64) × (digit v ≡ c))
digit_value_cases c = elim (Option-cases (digit_value c)) [
  | inl e ↦ inl e
  | inr (v, e) ↦ inr (v, e, (digit_value_inv c v e).0, (digit_value_inv c v e).1)
]

-- The three bytes of four digits.
abbrev pub byte0 : ℕ → ℕ → ℕ
byte0 v0 v1 = bit_or (v0 * 4) (v1 / 16) % 256

abbrev pub byte1 : ℕ → ℕ → ℕ
byte1 v1 v2 = bit_or (v1 * 16) (v2 / 4) % 256

abbrev pub byte2 : ℕ → ℕ → ℕ
byte2 v2 v3 = bit_or (v2 * 64) v3 % 256

pub byte0_lem : (v0 v1 : ℕ) → v0 < 64 → v1 < 64 → byte0 v0 v1 ≡ v0 * 4 + v1 / 16
byte0_lem v0 v1 h0 h1 = omega (arith, or_shift2 v0 (v1 / 16) (omega arith))

pub byte1_lem : (v1 v2 : ℕ) → v1 < 64 → v2 < 64 → byte1 v1 v2 ≡ v1 % 16 * 16 + v2 / 4
byte1_lem v1 v2 h1 h2 = omega (arith, or_shift4 v1 (v2 / 4) (omega arith))

pub byte2_lem : (v2 v3 : ℕ) → v2 < 64 → v3 < 64 → byte2 v2 v3 ≡ v2 % 4 * 64 + v3
byte2_lem v2 v3 h2 h3 = omega (arith, or_shift6 v2 v3 h3)

-- The encoder splits them into the same digits again.
module _ (v0 v1 v2 : ℕ) (h0 : v0 < 64) (h1 : v1 < 64) (h2 : v2 < 64) where
  digit0_again : byte0 v0 v1 / 4 ≡ v0
  digit0_again = omega (arith, byte0_lem v0 v1 h0 h1)

  digit1_again : bit_or (byte0 v0 v1 % 4 * 16) (byte1 v1 v2 / 16) ≡ v1
  digit1_again = omega (
    arith,
    byte0_lem v0 v1 h0 h1,
    byte1_lem v1 v2 h1 h2,
    or_shift4 (byte0 v0 v1 % 4) (byte1 v1 v2 / 16) (omega (arith, byte1_lem v1 v2 h1 h2)),
  )

digit2_again :
    (v1 v2 v3 : ℕ)
    → v1 < 64
    → v2 < 64
    → v3 < 64
    → bit_or (byte1 v1 v2 % 16 * 4) (byte2 v2 v3 / 64) ≡ v2
digit2_again v1 v2 v3 h1 h2 h3 = omega (
  arith,
  byte1_lem v1 v2 h1 h2,
  byte2_lem v2 v3 h2 h3,
  or_shift2 (byte1 v1 v2 % 16) (byte2 v2 v3 / 64) (omega (arith, byte2_lem v2 v3 h2 h3)),
)

encode_bytes-decode_bytes :
    (text bytes : List ℕ)
    → decode_bytes text ≡ some bytes
    → (encode_bytes bytes ≡ text) × All IsByte bytes
unfolding decode_bytes encode_bytes
encode_bytes-decode_bytes [] bytes h = ground arith
encode_bytes-decode_bytes (c0 ∷ []) bytes h = cc
encode_bytes-decode_bytes (c0 ∷ c1 ∷ []) bytes h = elim (digit_value_cases c0) [
  | inl e0 ↦ ground arith
  | inr (v0, e0, h0, d0) ↦ elim (digit_value_cases c1) [
    | inl e1 ↦ ground arith
    | inr (v1, e1, h1, d1) ↦ ground (arith, byte0_lem v0 v1)
  ]
]
encode_bytes-decode_bytes (c0 ∷ c1 ∷ c2 ∷ []) bytes h = elim (digit_value_cases c0) [
  | inl e0 ↦ ground arith
  | inr (v0, e0, h0, d0) ↦ elim (digit_value_cases c1) [
    | inl e1 ↦ ground arith
    | inr (v1, e1, h1, d1) ↦ elim (digit_value_cases c2) [
      | inl e2 ↦ ground arith
      | inr (v2, e2, h2, d2) ↦
          ground (arith, digit0_again v0 v1 v2, digit1_again v0 v1 v2, byte1_lem v1 v2)
    ]
  ]
]
encode_bytes-decode_bytes (c0 ∷ c1 ∷ c2 ∷ c3 ∷ rest) bytes h = elim (digit_value_cases c0) [
  | inl e0 ↦ ground arith
  | inr (v0, e0, h0, d0) ↦ elim (digit_value_cases c1) [
    | inl e1 ↦ ground arith
    | inr (v1, e1, h1, d1) ↦ elim (digit_value_cases c2) [
      | inl e2 ↦ ground arith
      | inr (v2, e2, h2, d2) ↦ elim (digit_value_cases c3) [
        | inl e3 ↦ ground arith
        | inr (v3, e3, h3, d3) ↦ elim (Option-cases (decode_bytes rest)) [
          | inl e ↦ ground arith
          | inr (more, e) ↦ ground (
            arith,
            digit0_again v0 v1 v2,
            digit1_again v0 v1 v2,
            digit2_again v1 v2 v3,
            byte2_lem v2 v3,
            encode_bytes-decode_bytes rest more,
          )
        ]
      ]
    ]
  ]
]

decode_ok :
    (text bytes : List ℕ) (size : ℕ)
    → decode false text false size ≡ some bytes
    → decode_bytes text ≡ some bytes
unfolding decode
decode_ok text bytes size h = elim (Option-cases (decoded_length (length text))) [
  | inl e ↦ ground arith
  | inr (n, e) ↦ elim (Option-cases (decode_bytes text)) [
    | inl d ↦ ground arith
    | inr (b, d) ↦ ground arith
  ]
]

-- A text that `decode` accepts is the one that `encode` writes for the bytes it stands for: no byte
-- string has two accepted texts, and stray bits, wrong characters and a cut group are refused.
pub encode-decode :
    (text bytes : List ℕ) (size text_size : ℕ)
    → decode false text false size ≡ some bytes
    → length text < text_size
    → encode false bytes false text_size ≡ some text
unfolding encode
encode-decode text bytes size text_size h room =
    let same : encode_bytes bytes ≡ text =
      (encode_bytes-decode_bytes text bytes (decode_ok text bytes size h)).0 in
    ground (arith, same, length-encode_bytes bytes, ap length same)
