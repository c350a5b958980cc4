-- ===== src/Common/Ints.antt =====
-- Signed machine integers: file descriptors and the results of system calls.
use Prim.Native.Nat.{ℕ, ◌-◌, ◌%◌, ◌^◌}
use mathlib.Core.Bool.{Bool, true, false}
use servercc.Common.Tests.{ltb, ◌==◌}

-- `negsuc n` is -(n + 1).
pub data ℤ : Type 0 where
  pos : ℕ → ℤ
  negsuc : ℕ → ℤ

-- `a < 0`.
abbrev pub is_negative : ℤ → Bool
is_negative (pos n) = false
is_negative (negsuc n) = true

-- `a < n` for a signed 64-bit `a` and an unsigned 32-bit `n`: the comparison is made in 64 bits.
abbrev pub signed_lt : ℤ → ℕ → Bool
signed_lt (pos a) n = ltb a n
signed_lt (negsuc a) n = true

-- The conversion of a 32-bit `int` to `unsigned int`.
abbrev pub to_uint32 : ℤ → ℕ
to_uint32 (pos a) = a % 2 ^ 32
to_uint32 (negsuc a) = 2 ^ 32 - 1 - a % 2 ^ 32

-- `a == -1`.
abbrev pub is_minus_one : ℤ → Bool
is_minus_one (pos a) = false
is_minus_one (negsuc a) = a == 0
