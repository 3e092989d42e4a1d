-- ===== src/Tools/Digits.antt =====
-- The counts on the command lines of src/tools: a decimal number in the range of a std::size_t.
use burnout_3_recompiled.Common.{
  ℕ, Bool, true, false, some, none, [], ◌∷◌, ◌+◌, ◌-◌, ◌*◌, ◌^◌, ◌&&◌, ◌≡◌, refl, arith, Bool-cases,
  inl, inr, if◌then◌else◌, leb, ltb, Text,
}
use burnout_3_recompiled.Tools.Arguments.{
  is_digit, digits_from, from_chars, positive_integer, at_end,
}

abbrev pub all_digits : Text → Bool
all_digits [] = true
all_digits (c ∷ rest) = is_digit c && all_digits rest

-- The number that digits after a value make.
abbrev pub number : ℕ → Text → ℕ
number value [] = value
number value (c ∷ rest) = number (value * 10 + (c - 48)) rest

abbrev pub is_number : Text → Bool
is_number [] = false
is_number (c ∷ rest) = all_digits (c ∷ rest)

digits_from-all :
    (value : ℕ) (text : Text)
    → all_digits text ≡ true
    → digits_from value text ≡ (number value text, [])
unfolding digits_from
digits_from-all value [] h = refl
digits_from-all value (c ∷ rest) h = elim (Bool-cases (is_digit c)) [
  | inl is ↦ rw (is, digits_from) (digits_from-all (value * 10 + (c - 48)) rest (ground (arith, h)))
  | inr other ↦ absurd (ground (arith, h, other))
]

digits_from-some :
    (value : ℕ) (text : Text) → all_digits text ≡ false → at_end (digits_from value text).1 ≡ false
unfolding digits_from
digits_from-some value [] h = absurd (ground (arith, h))
digits_from-some value (c ∷ rest) h = elim (Bool-cases (is_digit c)) [
  | inl is ↦
      rw (is, digits_from) (digits_from-some (value * 10 + (c - 48)) rest (ground (arith, h)))
  | inr other ↦ rw (other, digits_from) refl
]

-- A text is read as a count just when it is made of digits and the number they make is positive and
-- below 2 ^ 64; the count is that number.
pub positive_integer-number :
    (text : Text)
    → positive_integer text ≡ (
        if is_number text && leb 1 (number 0 text) && ltb (number 0 text) (2 ^ 64)
        then some (number 0 text)
        else none)
unfolding positive_integer from_chars
positive_integer-number [] = refl
positive_integer-number (c ∷ rest) = elim (Bool-cases (all_digits (c ∷ rest))) [
  | inl all ↦ ground (arith, digits_from-all 0 (c ∷ rest) all, all)
  | inr other ↦ ground (arith, digits_from-some 0 (c ∷ rest) other, other)
]
