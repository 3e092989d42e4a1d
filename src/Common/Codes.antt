-- ===== src/Common/Codes.antt =====
-- Texts as lists of character codes.
use Prim.Native.Nat.{ℕ}
use Prim.Native.String.{String}
use Prim.Native.Char.{code}
use mathlib.Core.Path.{◌≡◌, refl, ap, ◌∙◌}
use mathlib.Core.Bool.{Bool, true, false, ◌&&◌}
use mathlib.Core.Logic.{◌≢◌, inl, inr}
use mathlib.Core.List.{List, [], ◌∷◌}
use native.Mathlib.Omega.{arith}
use burnout_3_recompiled.Common.Tests.{◌==◌, Bool-cases}

abbrev pub Text : Type 0
Text = List ℕ

unfoldable pub codes : String → Text
codes String.[] = []
codes (String.◌∷◌ c rest) = code c ∷ codes rest

abbrev pub text_equal : Text → Text → Bool
text_equal [] [] = true
text_equal (x ∷ xs) (y ∷ ys) = (x == y) && text_equal xs ys
text_equal _ _ = false

pub text_equal-≡ : (xs ys : Text) → text_equal xs ys ≡ true → xs ≡ ys
text_equal-≡ [] [] h = refl
text_equal-≡ [] (y ∷ ys) h = absurd (ground (arith, h))
text_equal-≡ (x ∷ xs) [] h = absurd (ground (arith, h))
text_equal-≡ (x ∷ xs) (y ∷ ys) h =
    let same : x ≡ y = ground (arith, h) in
    ap (λ z. z ∷ xs) same ∙ ap (λ zs. y ∷ zs) (text_equal-≡ xs ys (ground (arith, h)))

pub text_equal-≢ : (xs ys : Text) → xs ≢ ys → text_equal xs ys ≡ false
text_equal-≢ xs ys differ = elim (Bool-cases (text_equal xs ys)) [
  | inl e ↦ absurd (differ (text_equal-≡ xs ys e))
  | inr e ↦ e
]
