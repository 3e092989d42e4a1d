-- ===== src/Tools/Dashed.antt =====
-- is_option of the parsers in src/tools, and the texts that it takes for options.
use burnout_3_recompiled.Common.{true, false, ◌≡◌, sym, ap, ◌∙◌, [], ◌∷◌, ◌++◌, arith, Text, codes}
use burnout_3_recompiled.Tools.Arguments.{is_option}

-- A text that begins with two dashes.
abbrev pub IsDashed : Text → Type 0
IsDashed value = (rest : Text) × (value ≡ codes "--" ++ rest)

pub is_option-IsDashed : (value : Text) → is_option value ≡ true → IsDashed value
unfolding is_option codes
is_option-IsDashed [] h = absurd (ground (arith, h))
is_option-IsDashed (c ∷ []) h = absurd (ground (arith, h))
is_option-IsDashed (c ∷ d ∷ rest) h =
    let left : c ≡ 45 = ground (arith, h) in
    let right : d ≡ 45 = ground (arith, h) in
    (rest, ap (λ x. x ∷ d ∷ rest) left ∙ ap (λ x. 45 ∷ x ∷ rest) right)

pub not_is_option : (value : Text) → is_option value ≡ false → ¬ IsDashed value
unfolding is_option codes
not_is_option value h (rest, e) = absurd (ground (arith, sym h ∙ ap is_option e))
