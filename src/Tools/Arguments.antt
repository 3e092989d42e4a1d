-- ===== src/Tools/Arguments.antt =====
-- What the parsers of options in src/tools share: is_option, and std::from_chars with base 10 into a
-- std::size_t, as they use it.
use burnout_3_recompiled.Common.{
  ℕ, Bool, true, false, Option, some, none, [], ◌∷◌, ◌+◌, ◌-◌, ◌*◌, ◌^◌, ◌==◌, ◌&&◌, ◌||◌, not,
  if◌then◌else◌, leb, ltb, Text,
}

-- `value.starts_with("--")`.
unfoldable pub is_option : Text → Bool
is_option (c ∷ d ∷ rest) = (c == 45) && (d == 45)
is_option _ = false

abbrev pub is_digit : ℕ → Bool
is_digit c = leb 48 c && leb c 57

-- The value of the digits a text begins with, and the text after them.
unfoldable pub digits_from : ℕ → Text → ℕ × Text
digits_from value [] = (value, [])
digits_from value (c ∷ rest) =
    let later = digits_from (value * 10 + (c - 48)) rest in
    if is_digit c then later else (value, c ∷ rest)

-- The value and `conversion.ptr`, or none for an error: no digit, or a value out of range.
unfoldable pub from_chars : Text → Option (ℕ × Text)
from_chars [] = none
from_chars (c ∷ rest) =
    let parsed = digits_from 0 (c ∷ rest) in
    if not (is_digit c) then none else if ltb parsed.0 (2 ^ 64) then some parsed else none

abbrev pub at_end : Text → Bool
at_end [] = true
at_end (c ∷ rest) = false

-- `conversion.ec != std::errc{} || conversion.ptr != end || parsed == 0u` is the error.
unfoldable pub positive_integer : Text → Option ℕ
positive_integer value = elim (from_chars value) [
  | none ↦ none
  | some conversion ↦
      if not (at_end conversion.1) || (conversion.0 == 0) then none else some conversion.0
]
