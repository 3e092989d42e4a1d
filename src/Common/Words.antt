-- ===== src/Common/Words.antt =====
-- Machine words as native numbers. A cast to an unsigned type keeps the low bits; a signed integer
-- is its two's complement bit pattern, so that a cast to the unsigned type of the same width does
-- nothing and a widening copies the sign bit.
use Prim.Native.Nat.{ℕ, ◌+◌, ◌-◌, ◌*◌, ◌/◌, ◌%◌, ◌^◌}
use burnout_3_recompiled.Common.Tests.{ltb, if◌then◌else◌}

abbrev pub u8 : ℕ → ℕ
u8 n = n % 2 ^ 8

abbrev pub u16 : ℕ → ℕ
u16 n = n % 2 ^ 16

abbrev pub u32 : ℕ → ℕ
u32 n = n % 2 ^ 32

abbrev pub u64 : ℕ → ℕ
u64 n = n % 2 ^ 64

abbrev pub shr : ℕ → ℕ → ℕ
shr x k = x / 2 ^ k

abbrev pub shl : ℕ → ℕ → ℕ
shl x k = x * 2 ^ k

-- int16_t to int32_t, and int32_t to int64_t.
abbrev pub i32_of_i16 : ℕ → ℕ
i32_of_i16 x = if ltb x 0x8000 then x else x + (2 ^ 32 - 2 ^ 16)

abbrev pub i64_of_i32 : ℕ → ℕ
i64_of_i32 x = if ltb x 0x8000_0000 then x else x + (2 ^ 64 - 2 ^ 32)
