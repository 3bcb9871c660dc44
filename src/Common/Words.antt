-- ===== src/Common/Words.antt =====
-- Machine words: `u64` and `u8` wrap as a release build does; `saturating_add` stops at the top.
-- `saturating_sub` is the subtraction of the native numbers.
use Prim.Native.Nat.{ℕ, ◌+◌, ◌-◌, ◌%◌, ◌<◌, min}
use mathlib.Core.Path.{◌≡◌}
use native.Mathlib.Omega.{arith}

abbrev pub u64_mod : ℕ
u64_mod = 18446744073709551616

-- The value of a `u64` expression: reduced modulo 2 ^ 64.
abbrev pub u64 : ℕ → ℕ
u64 n = n % 18446744073709551616

-- The value of a `u8` expression.
abbrev pub u8 : ℕ → ℕ
u8 n = n % 256

-- `usize::saturating_add` on a 64-bit target.
abbrev pub saturating_add : ℕ → ℕ → ℕ
saturating_add a b = min (a + b) 18446744073709551615

pub u64_of_lt : (n : ℕ) → n < u64_mod → u64 n ≡ n
u64_of_lt n h = omega arith

-- The value of a `u32` expression, and of `n - 1` at that width.
abbrev pub u32 : ℕ → ℕ
u32 n = n % 4294967296

abbrev pub u32_pred : ℕ → ℕ
u32_pred n = u32 (n + 4294967295)

-- A difference of `usize`s or `u64`s, which wraps below zero.
abbrev pub u64_sub : ℕ → ℕ → ℕ
u64_sub a b = u64 (a + (18446744073709551616 - b))
