-- ===== src/Recompiler/Executor/Words.antt =====
-- The executor's word arithmetic, as plain arithmetic.
use burnout_3_recompiled.Common.{
  ℕ, ◌≡◌, ◌+◌, ◌-◌, ◌*◌, ◌/◌, ◌%◌, ◌<◌, ◌^◌, ltb, if◌then◌else◌, arith, min, bit_and_high,
  bit_or_fields, bit_or_fields_swapped, bit_and_mask, zero-bit_or, u32, shr,
}
use burnout_3_recompiled.Recompiler.Executor.{
  R5900IrGprValue, sign_extend_word, saturating_add_u32, replace_word, add_lanes, zero_value,
}

-- Two's complement widening of a 32-bit word to 64 bits.
abbrev pub sext32 : ℕ → ℕ
sext32 w = if ltb w (2 ^ 31) then w else w + (2 ^ 64 - 2 ^ 32)

pub sign_extend_word-sext32 : (w : ℕ) → w < 2 ^ 32 → sign_extend_word w ≡ sext32 w
unfolding sign_extend_word
sign_extend_word-sext32 w h = ground (
  arith,
  bit_and_high 31 1 (w / 2 ^ 31) (w % 2 ^ 31) (omega arith) (omega arith),
  bit_or_fields 32 (2 ^ 32 - 1) w h,
)

pub saturating_add_u32-min : (a b : ℕ) → saturating_add_u32 a b ≡ min (a + b) 0xffff_ffff
unfolding saturating_add_u32
saturating_add_u32-min a b = ground arith

saturating_add_u32-lt : (a b : ℕ) → saturating_add_u32 a b < 2 ^ 32
saturating_add_u32-lt a b = omega (arith, saturating_add_u32-min a b)

-- The four words of a 128-bit value, added without carry between them and without wrap-around.
unfoldable pub add_halves : ℕ → ℕ → ℕ
add_halves a b =
    min (a % 2 ^ 32 + b % 2 ^ 32) 0xffff_ffff
    + 2 ^ 32 * min (a / 2 ^ 32 % 2 ^ 32 + b / 2 ^ 32 % 2 ^ 32) 0xffff_ffff

replace_word_low : (a : ℕ) → a < 2 ^ 32 → replace_word 0 0 a ≡ a
unfolding replace_word
replace_word_low a h = rw zero-bit_or (omega arith)

replace_word_high : (a b : ℕ) → a < 2 ^ 32 → b < 2 ^ 32 → replace_word a 32 b ≡ a + 2 ^ 32 * b
unfolding replace_word
replace_word_high a b ha hb = ground (arith, bit_and_mask 32 a, bit_or_fields_swapped 32 b a ha)

replace_word_both :
    (a b : ℕ) → a < 2 ^ 32 → b < 2 ^ 32 → replace_word (replace_word 0 0 a) 32 b ≡ a + 2 ^ 32 * b
replace_word_both a b ha hb = rw (replace_word_low a ha) (replace_word_high a b ha hb)

add_halves_lem :
    (a b : ℕ)
    → replace_word
        (replace_word 0 0 (saturating_add_u32 (u32 (shr a 0)) (u32 (shr b 0))))
        32
        (saturating_add_u32 (u32 (shr a 32)) (u32 (shr b 32)))
      ≡ add_halves a b
unfolding add_halves
add_halves_lem a b = omega (
  arith,
  saturating_add_u32-min (u32 (shr a 0)) (u32 (shr b 0)),
  saturating_add_u32-min (u32 (shr a 32)) (u32 (shr b 32)),
  replace_word_both (saturating_add_u32 (u32 (shr a 0)) (u32 (shr b 0)))
      (saturating_add_u32 (u32 (shr a 32)) (u32 (shr b 32))) (saturating_add_u32-lt _ _)
      (saturating_add_u32-lt _ _),
)

-- The packed addition replaces both halves by their word-wise saturating sums.
pub add_lanes_lem :
    (l r : R5900IrGprValue)
    → add_lanes 4 0 l r zero_value
      ≡ record { low64 = add_halves l.low64 r.low64; high64 = add_halves l.high64 r.high64 }
unfolding add_lanes add_halves
add_lanes_lem l r = λ i. record {
  low64 = add_halves_lem l.low64 r.low64 i;
  high64 = add_halves_lem l.high64 r.high64 i;
}
