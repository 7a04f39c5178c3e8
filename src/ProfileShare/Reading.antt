-- ===== src/ProfileShare/Reading.antt =====
-- The loop of Decode in src/ProxyLane/ProfileShareCodec.h, beside the decoder by groups of four of
-- src/ProxyLaneHook/ElevatedLaunchProtocol.h.
use proxy_lane.Base64Url.Canonical.{
  byte0, byte1, byte2, byte0_lem, byte1_lem, byte2_lem, byte0, byte1, byte2, digit_value_cases,
}
use proxy_lane.Common.{
  ap, ◌>>=◌, ◌&&◌, ◌==◌, not, if◌then◌else◌, inr, ◌∙◌, inl, ◌≢◌, length, none, ◌++◌, some, Option,
  or_shift6, ℕ, ◌+◌, ◌*◌, ◌/◌, ◌%◌, ◌^◌, ◌<◌, bit_or, ◌≡◌, refl, List, [], ◌∷◌, arith,
}
use proxy_lane.Base64Url.{digit_value, decode_bytes}
use proxy_lane.ProfileShare.{left_of, appended, decode_loop, no_rest}

or64 : (bits n : ℕ) → n < 64 → bit_or (bits * 64 % 2 ^ 32) n ≡ bits % 2 ^ 26 * 64 + n
or64 bits n h =
    let e : bits * 64 % 2 ^ 32 ≡ bits % 2 ^ 26 * 64 = omega arith in
    rw e (or_shift6 (bits % 2 ^ 26) n h)

decode_loop_bad :
    (bits count ch : ℕ) (s : List ℕ)
    → digit_value ch ≡ none
    → decode_loop bits count (ch ∷ s) ≡ none
unfolding decode_loop
decode_loop_bad bits count ch s h = rw h refl

-- A step of the loop on a digit, and what it does to the answer.
abbrev after : List ℕ → Option (List ℕ) → Option (List ℕ)
after bytes none = none
after bytes (some rest) = some (bytes ++ rest)

no_rest_step :
    (bits count ch n : ℕ) (s : List ℕ)
    → digit_value ch ≡ some n
    → let bits' = bit_or (bits * 64 % 2 ^ 32) n in
      no_rest (decode_loop bits count (ch ∷ s))
      ≡ after (appended bits' (count + 6)) (no_rest (decode_loop bits' (left_of (count + 6)) s))
unfolding decode_loop no_rest
no_rest_step bits count ch n s h = ground (arith, h)

no_rest_bad :
    (bits count ch : ℕ) (s : List ℕ)
    → digit_value ch ≡ none
    → no_rest (decode_loop bits count (ch ∷ s)) ≡ none
unfolding no_rest
no_rest_bad bits count ch s h = rw (decode_loop_bad bits count ch s h) refl

no_rest_end :
    (bits count : ℕ)
    → no_rest (decode_loop bits count [])
      ≡ (if not (count == 0) && not (bits % 2 ^ count == 0) then none else some [])
unfolding no_rest decode_loop
no_rest_end bits count = refl

-- The bits after one, two, three and four digits.
abbrev next : ℕ → ℕ → ℕ
next bits n = bit_or (bits * 64 % 2 ^ 32) n

-- The bytes that the loop appends are those of the digits, whatever the bits are.
next2-byte :
    (bits v0 v1 : ℕ)
    → v0 < 64
    → v1 < 64
    → (next (next bits v0) v1 / 16 % 256 ≡ byte0 v0 v1) × (next (next bits v0) v1 % 16 ≡ v1 % 16)
next2-byte bits v0 v1 h0 h1 =
    let b0 = or64 bits v0 h0 in
    let b1 = or64 (next bits v0) v1 h1 in
    (omega (arith, b0, b1, byte0_lem v0 v1 h0 h1), omega (arith, b1))

next3-byte :
    (bits v1 v2 : ℕ)
    → v1 < 64
    → v2 < 64
    → (next (next bits v1) v2 / 4 % 256 ≡ byte1 v1 v2) × (next (next bits v1) v2 % 4 ≡ v2 % 4)
next3-byte bits v1 v2 h1 h2 =
    let b1 = or64 bits v1 h1 in
    let b2 = or64 (next bits v1) v2 h2 in
    (omega (arith, b1, b2, byte1_lem v1 v2 h1 h2), omega (arith, b2))

next4-byte : (bits v2 v3 : ℕ) → v2 < 64 → v3 < 64 → next (next bits v2) v3 / 1 % 256 ≡ byte2 v2 v3
next4-byte bits v2 v3 h2 h3 =
    omega (arith, or64 bits v2 h2, or64 (next bits v2) v3 h3, byte2_lem v2 v3 h2 h3)

two_digits :
    (bits c0 c1 : ℕ) → no_rest (decode_loop bits 0 (c0 ∷ c1 ∷ [])) ≡ decode_bytes (c0 ∷ c1 ∷ [])
unfolding decode_bytes
two_digits bits c0 c1 = elim (digit_value_cases c0) [
  | inl e0 ↦ no_rest_bad bits 0 c0 (c1 ∷ []) e0 ∙ rw e0 refl
  | inr (v0, e0, h0, _) ↦ elim (digit_value_cases c1) [
    | inl e1 ↦
        let s0 = no_rest_step bits 0 c0 v0 (c1 ∷ []) e0 in
        let s1 = no_rest_bad (next bits v0) 6 c1 [] e1 in ground (arith, e0, e1, s0, s1)
    | inr (v1, e1, h1, _) ↦
        let s0 = no_rest_step bits 0 c0 v0 (c1 ∷ []) e0 in
        let s1 = no_rest_step (next bits v0) 6 c1 v1 [] e1 in
        let s2 = no_rest_end (next (next bits v0) v1) 4 in
        let b = next2-byte bits v0 v1 h0 h1 in ground (arith, e0, e1, s0, s1, s2, b)
  ]
]

three_digits :
    (bits c0 c1 c2 : ℕ)
    → no_rest (decode_loop bits 0 (c0 ∷ c1 ∷ c2 ∷ [])) ≡ decode_bytes (c0 ∷ c1 ∷ c2 ∷ [])
unfolding decode_bytes
three_digits bits c0 c1 c2 = elim (digit_value_cases c0) [
  | inl e0 ↦ no_rest_bad bits 0 c0 (c1 ∷ c2 ∷ []) e0 ∙ rw e0 refl
  | inr (v0, e0, h0, _) ↦
      let s0 = no_rest_step bits 0 c0 v0 (c1 ∷ c2 ∷ []) e0 in
      let bits1 = next bits v0 in
      elim (digit_value_cases c1) [
        | inl e1 ↦ let s1 = no_rest_bad bits1 6 c1 (c2 ∷ []) e1 in ground (arith, e0, e1, s0, s1)
        | inr (v1, e1, h1, _) ↦
            let s1 = no_rest_step bits1 6 c1 v1 (c2 ∷ []) e1 in
            let bits2 = next bits1 v1 in
            elim (digit_value_cases c2) [
              | inl e2 ↦
                  let s2 = no_rest_bad bits2 4 c2 [] e2 in ground (arith, e0, e1, e2, s0, s1, s2)
              | inr (v2, e2, h2, _) ↦
                  let s2 = no_rest_step bits2 4 c2 v2 [] e2 in
                  let s3 = no_rest_end (next bits2 v2) 2 in
                  let b0 = next2-byte bits v0 v1 h0 h1 in
                  let b1 = next3-byte bits1 v1 v2 h1 h2 in
                  ground (arith, e0, e1, e2, s0, s1, s2, s3, b0, b1)
            ]
      ]
]

three_bytes :
    (rest : Option (List ℕ)) {x0 y0 x1 y1 x2 y2 : ℕ}
    → x0 ≡ y0
    → x1 ≡ y1
    → x2 ≡ y2
    → after [] (after (x0 ∷ []) (after (x1 ∷ []) (after (x2 ∷ []) rest)))
      ≡ (rest >>= λ bytes. some (y0 ∷ y1 ∷ y2 ∷ bytes))
three_bytes none e0 e1 e2 = refl
three_bytes (some bytes) e0 e1 e2 = ground (arith, e0, e1, e2)

-- Four digits, where the rest of the text is read alike.
four_digits :
    (bits c0 c1 c2 c3 : ℕ) (rest : List ℕ)
    → ((bits4 : ℕ) → no_rest (decode_loop bits4 0 rest) ≡ decode_bytes rest)
    → no_rest (decode_loop bits 0 (c0 ∷ c1 ∷ c2 ∷ c3 ∷ rest))
      ≡ decode_bytes (c0 ∷ c1 ∷ c2 ∷ c3 ∷ rest)
unfolding decode_bytes
four_digits bits c0 c1 c2 c3 rest ih = elim (digit_value_cases c0) [
  | inl e0 ↦ no_rest_bad bits 0 c0 (c1 ∷ c2 ∷ c3 ∷ rest) e0 ∙ rw e0 refl
  | inr (v0, e0, h0, _) ↦
      let s0 = no_rest_step bits 0 c0 v0 (c1 ∷ c2 ∷ c3 ∷ rest) e0 in
      let bits1 = next bits v0 in
      elim (digit_value_cases c1) [
        | inl e1 ↦
            let s1 = no_rest_bad bits1 6 c1 (c2 ∷ c3 ∷ rest) e1 in ground (arith, e0, e1, s0, s1)
        | inr (v1, e1, h1, _) ↦
            let s1 = no_rest_step bits1 6 c1 v1 (c2 ∷ c3 ∷ rest) e1 in
            let bits2 = next bits1 v1 in
            elim (digit_value_cases c2) [
              | inl e2 ↦
                  let s2 = no_rest_bad bits2 4 c2 (c3 ∷ rest) e2 in
                  ground (arith, e0, e1, e2, s0, s1, s2)
              | inr (v2, e2, h2, _) ↦
                  let s2 = no_rest_step bits2 4 c2 v2 (c3 ∷ rest) e2 in
                  let bits3 = next bits2 v2 in
                  elim (digit_value_cases c3) [
                    | inl e3 ↦
                        let s3 = no_rest_bad bits3 2 c3 rest e3 in
                        ground (arith, e0, e1, e2, e3, s0, s1, s2, s3)
                    | inr (v3, e3, h3, _) ↦
                        let s3 = no_rest_step bits3 2 c3 v3 rest e3 in
                        let b0 = next2-byte bits v0 v1 h0 h1 in
                        let b1 = next3-byte bits1 v1 v2 h1 h2 in
                        let b2 = next4-byte bits2 v2 v3 h2 h3 in
                        let s4 = ih (next bits3 v3) in
                        let read =
                          s0
                          ∙ ap (after []) (
                              s1
                              ∙ ap (after (appended bits2 12)) (
                                  s2
                                  ∙ ap (after (appended bits3 10))
                                      (s3 ∙ ap (after (appended (next bits3 v3) 8)) s4))) in
                        read ∙ rw (e0, e1, e2, e3) (three_bytes (decode_bytes rest) b0.0 b1.0 b2)
                  ]
            ]
      ]
]

pub decode_loop-decode_bytes :
    (bits : ℕ) (text : List ℕ)
    → length text % 4 ≢ 1
    → no_rest (decode_loop bits 0 text) ≡ decode_bytes text
decode_loop-decode_bytes bits [] h = unfold no_rest decode_loop decode_bytes in refl
decode_loop-decode_bytes bits (c0 ∷ []) h = absurd (h refl)
decode_loop-decode_bytes bits (c0 ∷ c1 ∷ []) h = two_digits bits c0 c1
decode_loop-decode_bytes bits (c0 ∷ c1 ∷ c2 ∷ []) h = three_digits bits c0 c1 c2
decode_loop-decode_bytes bits (c0 ∷ c1 ∷ c2 ∷ c3 ∷ rest) h =
    four_digits bits c0 c1 c2 c3 rest
      (λ bits4. decode_loop-decode_bytes bits4 rest (λ e. h (omega (arith, e))))
