-- ===== src/Common/Bits.antt =====
-- `|` of two words whose bits do not overlap, as the codecs use it, and C's `htons`.
use Prim.Native.Nat.{
  ℕ, zero, suc, ◌+◌, ◌*◌, ◌/◌, ◌%◌, ◌^◌, ◌≤◌, ◌<◌, max, bit_or, digits, bit_or-bitwise,
}
use mathlib.Core.Path.{◌≡◌, refl, ap}
use native.Mathlib.Omega.{arith}
use native.Mathlib.Nat.{pow-suc}

-- `|` goes through the binary digits of its left word; here with an explicit bound on their number.
abbrev binary_or : ℕ → ℕ → ℕ → ℕ
binary_or bound left right = digits (λ d. d) max bound left right

-- Any bound that is not below the word will do.
binary_or_bound :
    (left bound other right : ℕ)
    → left ≤ other
    → left ≤ bound
    → binary_or bound left right ≡ binary_or other left right
binary_or_bound zero zero zero right ho hb = refl
binary_or_bound zero zero (suc other) right ho hb = refl
binary_or_bound zero (suc bound) zero right ho hb = refl
binary_or_bound zero (suc bound) (suc other) right ho hb = refl
binary_or_bound (suc left) zero other right ho hb = absurd (omega (arith, hb))
binary_or_bound (suc left) (suc bound) zero right ho hb = absurd (omega (arith, ho))
binary_or_bound (suc left) (suc bound) (suc other) right ho hb =
    let half = suc left / 2 in
    omega (arith, binary_or_bound half bound other (right / 2) (omega arith) (omega arith))

nothing-bit_or : (right : ℕ) → bit_or 0 right ≡ right
nothing-bit_or right = bit_or-bitwise 0 right

-- The lowest digit and the rest are computed apart.
bit_or-halves :
    (right left : ℕ)
    → max (left % 2) (right % 2) + 2 * bit_or (left / 2) (right / 2) ≡ bit_or left right
bit_or-halves right zero = omega (arith, nothing-bit_or (right / 2), nothing-bit_or right)
bit_or-halves right (suc left) =
    let half = suc left / 2 in
    let enough = binary_or_bound half left half (right / 2) (omega arith) (omega arith) in
    omega (arith, enough, bit_or-bitwise half (right / 2), bit_or-bitwise (suc left) right)

bit_or-nothing_below : (bound left : ℕ) → left < bound → bit_or left 0 ≡ left
bit_or-nothing_below zero left h = absurd (omega arith)
bit_or-nothing_below (suc bound) zero h = refl
bit_or-nothing_below (suc bound) (suc left) h =
    let rest = bit_or-nothing_below bound (suc left / 2) (omega arith) in
    omega (arith, rest, bit_or-halves 0 (suc left))

bit_or-nothing : (left : ℕ) → bit_or left 0 ≡ left
bit_or-nothing left = bit_or-nothing_below (suc left) left (omega arith)

-- `(x << k) | c` where `c` has `k` bits.
pub or_shift : (k x c : ℕ) → c < 2 ^ k → bit_or (x * 2 ^ k) c ≡ x * 2 ^ k + c
or_shift zero x c h =
    let e : c ≡ 0 = omega arith in rw e (omega (arith, bit_or-nothing (x * 2 ^ 0)))
or_shift (suc k) x c h =
    omega
      (arith, bit_or-halves c (x * 2 ^ suc k), or_shift k x (c / 2), half, even, twice, pow-suc 2 k)
  where
    twice : x * 2 ^ suc k ≡ x * 2 ^ k * 2
    twice = omega (arith, ap (λ (t : ℕ). x * t) (pow-suc 2 k))

    half : bit_or (x * 2 ^ suc k / 2) (c / 2) ≡ bit_or (x * 2 ^ k) (c / 2)
    half = let e : x * 2 ^ suc k / 2 ≡ x * 2 ^ k = omega (arith, twice) in rw e

    even : x * 2 ^ suc k % 2 ≡ 0
    even = omega (arith, twice)

-- `(x << 2) | c` and so on, at the shifts of Base64.
pub or_shift2 : (x c : ℕ) → c < 4 → bit_or (x * 4) c ≡ x * 4 + c
or_shift2 x c h = or_shift 2 x c h

pub or_shift4 : (x c : ℕ) → c < 16 → bit_or (x * 16) c ≡ x * 16 + c
or_shift4 x c h = or_shift 4 x c h

pub or_shift6 : (x c : ℕ) → c < 64 → bit_or (x * 64) c ≡ x * 64 + c
or_shift6 x c h = or_shift 6 x c h

pub or_shift8 : (x c : ℕ) → c < 256 → bit_or (x * 256) c ≡ x * 256 + c
or_shift8 x c h = or_shift 8 x c h
