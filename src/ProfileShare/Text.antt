-- ===== src/ProfileShare/Text.antt =====
-- The text around the digits of a shared profile, of src/ProxyLane/ProfileShareCodec.h.
use proxy_lane.Base64Url.Digits.{digit-letter}
use proxy_lane.Base64Url.{digit, encode_bytes, encoded_length}
use proxy_lane.Base64Url.RoundTrip.{length-encode_bytes, decode_bytes-encode_bytes}
use proxy_lane.ProfileShare.Groups.{base64_url-encode_bytes}
use proxy_lane.Common.{
  or_shift2, or_shift4, ℕ, zero, suc, ◌+◌, ◌*◌, ◌/◌, ◌%◌, ◌≤◌, ◌<◌, bit_or, ◌≡◌, refl, sym, ap, ◌∙◌,
  ◌≢◌, inl, inr, Bool, true, false, not, ◌&&◌, some, List, [], ◌∷◌, ◌++◌, arith, length, take, All,
  bytes_eq, IsByte, All-append,
}
use proxy_lane.ProfileShare.{
  decode_trimmed, decode_loop, max_json_bytes, base64_url, no_rest, is_empty, prefix,
  max_code_bytes, encode, is_blank, unsupported_version, any_version, trim_left, trim_right,
  compares, decode,
}

-- The prefix of any version has 21 characters, and no 20 are equal to them.
length-take_le : (n : ℕ) (s : List ℕ) → length (take n s) ≤ n
length-take_le zero s = omega arith
length-take_le (suc n) [] = omega arith
length-take_le (suc n) (c ∷ s) = omega (arith, length-take_le n s)

bytes_eq-length : (a b : List ℕ) → length a < length b → bytes_eq a b ≡ false
bytes_eq-length [] [] h = absurd (omega arith)
bytes_eq-length [] (y ∷ b) h = refl
bytes_eq-length (x ∷ a) [] h = absurd (omega arith)
bytes_eq-length (x ∷ a) (y ∷ b) h = ground (arith, bytes_eq-length a b)

compares-any_version : (s : List ℕ) → compares 20 any_version s ≡ false
unfolding compares
compares-any_version s =
    bytes_eq-length (take 20 s) any_version (omega (arith, length-take_le 20 s))

-- No code is refused for its version: the message is never shown, also for a code that begins with
-- the prefix of another version.
pub decode_never_unsupported : (code : List ℕ) → decode code ≢ inl unsupported_version
unfolding decode decode_trimmed
decode_never_unsupported code h =
    ground (arith, compares-any_version (trim_right (trim_left code)), h)

abbrev IsBlank : ℕ → Type 0
IsBlank c = is_blank c ≡ true

abbrev IsVisible : ℕ → Type 0
IsVisible c = is_blank c ≡ false

trim_left-blank : (pad s : List ℕ) → All IsBlank pad → trim_left (pad ++ s) ≡ trim_left s
unfolding trim_left
trim_left-blank [] s h = refl
trim_left-blank (c ∷ pad) s h = rw (h.0) (trim_left-blank pad s h.1)

trim_right-blank : (pad : List ℕ) → All IsBlank pad → trim_right pad ≡ []
unfolding trim_right
trim_right-blank [] h = refl
trim_right-blank (c ∷ pad) h = rw (h.0, trim_right-blank pad h.1) refl

trim_right-visible :
    (s pad : List ℕ) → All IsVisible s → All IsBlank pad → trim_right (s ++ pad) ≡ s
unfolding trim_right
trim_right-visible [] pad v h = trim_right-blank pad h
trim_right-visible (c ∷ s) pad v h = rw (v.0, trim_right-visible s pad v.1 h) refl

digit-IsVisible : (v : ℕ) → v < 64 → IsVisible (digit v)
digit-IsVisible v h = rw (digit-letter v h) (ground arith)

middle-IsVisible : (a b : ℕ) → b < 256 → IsVisible (digit (bit_or (a % 4 * 16) (b / 16)))
middle-IsVisible a b h =
    rw (or_shift4 (a % 4) (b / 16) (omega arith))
      (digit-IsVisible (a % 4 * 16 + b / 16) (omega arith))

third-IsVisible : (b c : ℕ) → c < 256 → IsVisible (digit (bit_or (b % 16 * 4) (c / 64)))
third-IsVisible b c h =
    rw (or_shift2 (b % 16) (c / 64) (omega arith))
      (digit-IsVisible (b % 16 * 4 + c / 64) (omega arith))

encode_bytes-IsVisible : (s : List ℕ) → All IsByte s → All IsVisible (encode_bytes s)
unfolding encode_bytes
encode_bytes-IsVisible [] h = tt
encode_bytes-IsVisible (a ∷ []) h =
    (digit-IsVisible (a / 4) (omega (arith, h.0)), (digit-IsVisible (a % 4 * 16) (omega arith), tt))
encode_bytes-IsVisible (a ∷ b ∷ []) h = (
  digit-IsVisible (a / 4) (omega (arith, h.0)),
  (middle-IsVisible a b h.1.0, (digit-IsVisible (b % 16 * 4) (omega arith), tt)),
)
encode_bytes-IsVisible (a ∷ b ∷ c ∷ rest) h = (
  digit-IsVisible (a / 4) (omega (arith, h.0)),
  (
    middle-IsVisible a b h.1.0,
    (
      third-IsVisible b c h.1.1.0,
      (digit-IsVisible (c % 64) (omega arith), encode_bytes-IsVisible rest h.1.1.1),
    ),
  ),
)

encoded_length_not1 : (n : ℕ) → encoded_length n % 4 ≢ 1
unfolding encoded_length
encoded_length_not1 n e = ground (arith, e)

abbrev all_visible : List ℕ → Bool
all_visible [] = true
all_visible (c ∷ s) = not (is_blank c) && all_visible s

all_visible_sound : (s : List ℕ) → all_visible s ≡ true → All IsVisible s
all_visible_sound [] h = tt
all_visible_sound (c ∷ s) h = (ground (arith, h), all_visible_sound s (ground (arith, h)))

prefix-IsVisible : All IsVisible prefix
prefix-IsVisible = all_visible_sound prefix refl

is_empty-encode_bytes :
    (json : List ℕ) → is_empty json ≡ false → is_empty (encode_bytes json) ≡ false
unfolding encode_bytes
is_empty-encode_bytes [] n = ground (arith, n)
is_empty-encode_bytes (a ∷ []) n = refl
is_empty-encode_bytes (a ∷ b ∷ []) n = refl
is_empty-encode_bytes (a ∷ b ∷ c ∷ rest) n = refl

-- What Encode makes of bytes, and when.
encode_ok :
    (json code : List ℕ)
    → encode json ≡ inr code
    → (code ≡ prefix ++ base64_url json) × (length json ≤ max_json_bytes)
unfolding encode
encode_ok json code e = ground (arith, e)

decode_trimmed_ok :
    (encoded json : List ℕ)
    → is_empty encoded ≡ false
    → length encoded % 4 ≢ 1
    → no_rest (decode_loop 0 0 encoded) ≡ some json
    → length json ≤ max_json_bytes
    → decode_trimmed (prefix ++ encoded) ≡ inr json
unfolding decode_trimmed compares
decode_trimmed_ok encoded json ne n1 read small = ground (arith, ne, n1, read, small)

-- Decode on a code between blanks whose digits were read.
decode_ok :
    (encoded json before after : List ℕ)
    → All IsVisible encoded
    → All IsBlank before
    → All IsBlank after
    → length (before ++ (prefix ++ encoded ++ after)) ≤ max_code_bytes
    → is_empty encoded ≡ false
    → length encoded % 4 ≢ 1
    → no_rest (decode_loop 0 0 encoded) ≡ some json
    → length json ≤ max_json_bytes
    → decode (before ++ (prefix ++ encoded ++ after)) ≡ inr json
unfolding decode
decode_ok encoded json before after v hb ha room ne n1 read small =
    let code = prefix ++ encoded in
    let left : trim_left (before ++ (code ++ after)) ≡ code ++ after =
      trim_left-blank before (code ++ after) hb ∙ unfold trim_left in refl in
    let right : trim_right (code ++ after) ≡ code =
      trim_right-visible code after (All-append IsVisible prefix encoded prefix-IsVisible v) ha in
    let trimmed : trim_right (trim_left (before ++ (code ++ after))) ≡ code =
      ap trim_right left ∙ right in
    let some_left : is_empty (trim_left (before ++ (code ++ after))) ≡ false = ap is_empty left in
    ground (
      arith,
      room,
      some_left,
      ap decode_trimmed trimmed,
      decode_trimmed_ok encoded json ne n1 read small,
    )

-- The text that Encode makes of JSON, which is one byte or more, is read back as that JSON, with
-- blanks around it or none, as long as the whole is within the limit of 256 KiB.
pub decode-encode_profile :
    (json code before after : List ℕ)
    → All IsByte json
    → is_empty json ≡ false
    → encode json ≡ inr code
    → All IsBlank before
    → All IsBlank after
    → length (before ++ (code ++ after)) ≤ max_code_bytes
    → decode (before ++ (code ++ after)) ≡ inr json
decode-encode_profile json code before after h n e hb ha room =
    let (text, small) = encode_ok json code e in
    let size = length-encode_bytes json in
    let n1 : length (encode_bytes json) % 4 ≢ 1 = rw size (encoded_length_not1 (length json)) in
    let (same, reads) = base64_url-encode_bytes json (encode_bytes json) h n1 in
    let made : prefix ++ encode_bytes json ≡ code = ap (◌++◌ prefix) (sym same) ∙ sym text in
    let long = ap (λ c. length (before ++ (c ++ after))) made in
    ap (λ c. decode (before ++ (c ++ after))) (sym made)
    ∙ decode_ok (encode_bytes json) json before after (encode_bytes-IsVisible json h) hb ha
        (omega (arith, long, room)) (is_empty-encode_bytes json n) n1
        (reads ∙ decode_bytes-encode_bytes json h) small
