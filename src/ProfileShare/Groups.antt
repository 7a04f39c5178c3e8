-- ===== src/ProfileShare/Groups.antt =====
-- The two Base64URL codecs, of src/ProxyLane/ProfileShareCodec.h and of
-- src/ProxyLaneHook/ElevatedLaunchProtocol.h, side by side.
use proxy_lane.ProfileShare.Reading.{decode_loop-decode_bytes}
use proxy_lane.Common.{
  ◌≢◌, length, or_shift2, or_shift4, or_shift8, ℕ, zero, suc, ◌+◌, ◌-◌, ◌*◌, ◌/◌, ◌%◌, ◌^◌, ◌≤◌,
  ◌<◌, bit_or, ◌≡◌, refl, List, [], ◌∷◌, arith, All, IsByte,
}
use proxy_lane.Base64Url.{decode_bytes, encode_bytes}
use proxy_lane.ProfileShare.{base64_url, decode_loop, no_rest, drain, encode_loop}

-- The count reaches its end below six: the fuel is enough.
pub drain_enough : (fuel bits count : ℕ) → count ≤ fuel → (drain fuel bits count).1 < 6
unfolding drain
drain_enough zero bits count h = omega arith
drain_enough (suc fuel) bits count h = ground (arith, drain_enough fuel bits (count - 6))

or256 : (bits ch : ℕ) → ch < 256 → bit_or (bits * 256 % 2 ^ 32) ch ≡ bits % 2 ^ 24 * 256 + ch
or256 bits ch h =
    let e : bits * 256 % 2 ^ 32 ≡ bits % 2 ^ 24 * 256 = omega arith in
    rw e (or_shift8 (bits % 2 ^ 24) ch h)

-- Three bytes at a time, whatever bits are left from before.
encode_loop-encode_bytes :
    (bits : ℕ) (input : List ℕ) → All IsByte input → encode_loop bits 0 input ≡ encode_bytes input
unfolding encode_loop encode_bytes
encode_loop-encode_bytes bits [] h = refl
encode_loop-encode_bytes bits (a ∷ []) h =
    let a' = or256 bits a h.0 in
    let d0 : bit_or (bits * 256 % 2 ^ 32) a / 4 % 64 ≡ a / 4 = omega (arith, a', h.0) in
    let d1 : bit_or (bits * 256 % 2 ^ 32) a * 16 % 2 ^ 32 % 64 ≡ a % 4 * 16 =
      omega (arith, a', h.0) in
    ground (arith, d0, d1)
encode_loop-encode_bytes bits (a ∷ b ∷ []) h =
    let bits1 = bit_or (bits * 256 % 2 ^ 32) a in
    let bits2 = bit_or (bits1 * 256 % 2 ^ 32) b in
    let a' = or256 bits a h.0 in
    let b' = or256 bits1 b (h.1).0 in
    let d0 : bits1 / 4 % 64 ≡ a / 4 = omega (arith, a', h.0) in
    let d1 : bits2 / 16 % 64 ≡ bit_or (a % 4 * 16) (b / 16) =
      omega (arith, a', b', h.0, h.1.0, or_shift4 (a % 4) (b / 16) (omega (arith, h.1.0))) in
    let d2 : bits2 * 4 % 2 ^ 32 % 64 ≡ b % 16 * 4 = omega (arith, b', h.1.0) in
    ground (arith, d0, d1, d2)
encode_loop-encode_bytes bits (a ∷ b ∷ c ∷ rest) h =
    let bits1 = bit_or (bits * 256 % 2 ^ 32) a in
    let bits2 = bit_or (bits1 * 256 % 2 ^ 32) b in
    let bits3 = bit_or (bits2 * 256 % 2 ^ 32) c in
    let a' = or256 bits a h.0 in
    let b' = or256 bits1 b h.1.0 in
    let c' = or256 bits2 c h.1.1.0 in
    let d0 : bits1 / 4 % 64 ≡ a / 4 = omega (arith, a', h.0) in
    let d1 : bits2 / 16 % 64 ≡ bit_or (a % 4 * 16) (b / 16) =
      omega (arith, a', b', h.0, h.1.0, or_shift4 (a % 4) (b / 16) (omega (arith, h.1.0))) in
    let d2 : bits3 / 64 % 64 ≡ bit_or (b % 16 * 4) (c / 64) =
      omega (arith, b', c', h.1.0, h.1.1.0, or_shift2 (b % 16) (c / 64) (omega (arith, h.1.1.0))) in
    let d3 : bits3 / 1 % 64 ≡ c % 64 = omega (arith, c', h.1.1.0) in
    ground (arith, d0, d1, d2, d3, encode_loop-encode_bytes bits3 rest)

-- The codec of shared profiles, which moves its bits through an accumulator of 32 bits, writes and
-- reads the same texts as the one of the elevated launch, which works by groups; a text whose length
-- is 1 modulo 4 is refused by both before.
pub base64_url-encode_bytes :
    (input text : List ℕ)
    → All IsByte input
    → length text % 4 ≢ 1
    → (base64_url input ≡ encode_bytes input) × (no_rest (decode_loop 0 0 text) ≡ decode_bytes text)
unfolding base64_url
base64_url-encode_bytes input text h k =
    (encode_loop-encode_bytes 0 input h, decode_loop-decode_bytes 0 text k)
