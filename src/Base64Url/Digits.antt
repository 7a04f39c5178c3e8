-- ===== src/Base64Url/Digits.antt =====
-- The alphabet of src/ProxyLaneHook/ElevatedLaunchProtocol.h against the digit test.
use proxy_lane.Common.{
  ℕ, ◌+◌, ◌-◌, ◌<◌, ◌≡◌, refl, ◌∙◌, true, some, arith, ltb, ◌==◌, if◌then◌else◌, ==_iff,
  passes_below, passes_below_lem,
}
use proxy_lane.Base64Url.{digit, digit_value}

-- The alphabet by ranges.
abbrev pub letter : ℕ → ℕ
letter v =
    if ltb v 26
    then v + 65
    else if ltb v 52
    then v + 71
    else if ltb v 62
    then v - 4
    else if v == 62
    then 45
    else 95

digit_table : passes_below (λ v. digit v == letter v) 64 ≡ true
unfolding passes_below digit
digit_table = refl

pub digit-letter : (v : ℕ) → v < 64 → digit v ≡ letter v
digit-letter v h = (==_iff _ _).0 (passes_below_lem _ 64 v h digit_table)

pub digit_value-digit : (v : ℕ) → v < 64 → digit_value (digit v) ≡ some v
unfolding digit_value
digit_value-digit v h = rw (digit-letter v h) (ground arith)

pub digit_value_inv : (c v : ℕ) → digit_value c ≡ some v → (v < 64) × (digit v ≡ c)
unfolding digit_value
digit_value_inv c v h = (bound, digit-letter v bound ∙ ground arith)
  where
    bound : v < 64
    bound = ground arith
