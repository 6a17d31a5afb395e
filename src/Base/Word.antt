-- ===== src/Base/Word.antt =====
-- Machine integers as bit patterns: a `uint32_t` or an `int32_t` is a number below 2 ^ 32, and a
-- negative `int32_t` is the upper half, so that -1 is 2 ^ 32 - 1.
use Prim.Native.Nat.{ℕ, ◌+◌, ◌-◌, ◌*◌, ◌/◌, ◌%◌, ◌^◌}
use mathlib.Core.Bool.{Bool}
use mp.Base.Tests.{ltb, leb, if◌then◌else◌}

abbrev pub u8 : ℕ → ℕ
u8 n = n % 2 ^ 8

abbrev pub u32 : ℕ → ℕ
u32 n = n % 2 ^ 32

-- Addition and subtraction of 32-bit patterns, which wrap.
abbrev pub add32 : ℕ → ℕ → ℕ
add32 a b = (a + b) % 2 ^ 32

abbrev pub sub32 : ℕ → ℕ → ℕ
sub32 a b = (a + 2 ^ 32 - b) % 2 ^ 32

-- The value -1 of an `int32_t`.
abbrev pub minus_one : ℕ
minus_one = 0xffff_ffff

abbrev pub is_neg : ℕ → Bool
is_neg w = leb (2 ^ 31) w

-- Signed comparison of two patterns.
abbrev pub slt : ℕ → ℕ → Bool
slt a b = ltb ((a + 2 ^ 31) % 2 ^ 32) ((b + 2 ^ 31) % 2 ^ 32)

abbrev pub mul32 : ℕ → ℕ → ℕ
mul32 a b = a * b % 2 ^ 32

-- The pattern of `-w`.
abbrev pub neg32 : ℕ → ℕ
neg32 w = (2 ^ 32 - w) % 2 ^ 32

-- Division and remainder of an `int32_t` by a positive number: they round towards zero.
abbrev pub sdiv32 : ℕ → ℕ → ℕ
sdiv32 w n = if is_neg w then neg32 (neg32 w / n) else w / n

abbrev pub srem32 : ℕ → ℕ → ℕ
srem32 w n = if is_neg w then neg32 (neg32 w % n) else w % n

-- An `int8_t` (a `char`) read as an `int`.
abbrev pub sign_extend : ℕ → ℕ
sign_extend c = if ltb c 128 then c else (c + 0xffff_ff00)
