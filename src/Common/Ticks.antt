-- ===== src/Common/Ticks.antt =====
-- `DWORD` ticks of `GetTickCount`: 32-bit unsigned subtraction.
use Prim.Native.Nat.{ℕ, ◌+◌, ◌-◌, ◌%◌, ◌^◌, ◌<◌}
use mathlib.Core.Path.{◌≡◌}
use native.Mathlib.Omega.{arith}

abbrev pub IsDword : ℕ → Type 0
IsDword n = n < 2 ^ 32

-- `(DWORD)(a - b)`.
abbrev pub sub32 : ℕ → ℕ → ℕ
sub32 a b = (a + 2 ^ 32 - b) % 2 ^ 32

-- `(DWORD)(a + b)`.
abbrev pub add32 : ℕ → ℕ → ℕ
add32 a b = (a + b) % 2 ^ 32

-- A tick that is `d` later reads as `d` later, also across the wrap.
pub sub32-add32 : (a d : ℕ) → IsDword a → IsDword d → sub32 (add32 a d) a ≡ d
sub32-add32 a d ha hd = omega arith
