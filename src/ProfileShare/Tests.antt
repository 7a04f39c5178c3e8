-- ===== src/ProfileShare/Tests.antt =====
-- An empty JSON object as a shared profile, and a code of another version.
use proxy_lane.Common.{ℕ, ◌≡◌, refl, ◌≢◌, inl, inr, List, ◌++◌, arith, codes}
use proxy_lane.Base64Url.{encode_bytes, decode_bytes, digit}
use proxy_lane.ProfileShare.{
  invalid_code, unsupported_version, base64_url, encode, encode_loop, drain, decode, decode_trimmed,
  trim_left, trim_right, compares, decode_loop, no_rest,
}
use proxy_lane.ProfileShare.Groups.{base64_url-encode_bytes}
use proxy_lane.ProfileShare.Text.{decode-encode_profile, decode_never_unsupported}

abbrev braces : List ℕ
braces = codes "{}"

abbrev code : List ℕ
code = codes "proxylane://profile/v1/e30"

encode-braces : encode braces ≡ inr code
unfolding encode base64_url encode_loop drain digit
encode-braces = refl

-- The version is not looked at.
decode-other_version : decode (codes "proxylane://profile/v2/e30") ≡ inl invalid_code
unfolding decode decode_trimmed trim_left trim_right compares
decode-other_version = refl

base64_url-encode_bytes_example :
    (base64_url braces ≡ encode_bytes braces)
    × (no_rest (decode_loop 0 0 (codes "e30")) ≡ decode_bytes (codes "e30"))
base64_url-encode_bytes_example =
    base64_url-encode_bytes braces (codes "e30") (omega arith, (omega arith, tt))
      (λ e. omega (arith, e))

decode-encode_profile_example : decode (codes " " ++ (code ++ codes "\n")) ≡ inr braces
decode-encode_profile_example =
    decode-encode_profile braces code (codes " ") (codes "\n") (omega arith, (omega arith, tt)) refl
      encode-braces (refl, tt) (refl, tt) (omega arith)

decode_never_unsupported_example :
    decode (codes "proxylane://profile/v2/e30") ≢ inl unsupported_version
decode_never_unsupported_example = decode_never_unsupported (codes "proxylane://profile/v2/e30")
