-- ===== src/Base/Words.antt =====
-- 32-bit arithmetic: a value of `int` or `unsigned int` is its bit pattern, a number below 2 ^ 32.
use Prim.Native.Nat.{ℕ, ◌+◌, ◌-◌, ◌/◌, ◌%◌, ◌^◌}
use mathlib.Core.Bool.{Bool}
use linux_0_12_study.Base.Tests.{ltb, leb, if◌then◌else◌}

-- the low 32 bits
abbrev pub word : ℕ → ℕ
word n = n % 2 ^ 32

abbrev pub word_sub : ℕ → ℕ → ℕ
word_sub a b = (a + (2 ^ 32 - b % 2 ^ 32)) % 2 ^ 32

-- Is the `int` with this pattern negative?
abbrev pub is_negative : ℕ → Bool
is_negative n = leb (2 ^ 31) n

-- The pattern of -e as an `int`, for a constant e such as an error number.
abbrev pub neg : ℕ → ℕ
neg e = 2 ^ 32 - e

-- `a / d` of an `int` a and a positive constant d, which rounds towards 0.
abbrev pub int_div : ℕ → ℕ → ℕ
int_div a d = if is_negative a then word (2 ^ 32 - (2 ^ 32 - a) / d) else a / d

-- Comparisons of `int`s.
abbrev pub int_lt : ℕ → ℕ → Bool
int_lt a b = ltb ((a + 2 ^ 31) % 2 ^ 32) ((b + 2 ^ 31) % 2 ^ 32)

abbrev pub int_le : ℕ → ℕ → Bool
int_le a b = leb ((a + 2 ^ 31) % 2 ^ 32) ((b + 2 ^ 31) % 2 ^ 32)
