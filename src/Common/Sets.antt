-- ===== src/Common/Sets.antt =====
-- Tests on the elements of a list, and lists of numbers that stand for sets.
use Prim.Native.Nat.{ℕ}
use mathlib.Core.Path.{◌≡◌, refl, subst}
use mathlib.Core.Bool.{Bool, true, false, ◌&&◌, ◌||◌, not}
use mathlib.Core.List.{List, [], ◌∷◌, ◌++◌}
use native.Mathlib.Omega.{arith}
use mathlib.Core.Logic.{inl, inr}
use burnout_3_recompiled.Common.Tests.{◌==◌, Bool-cases}
use burnout_3_recompiled.Common.Lists.{All}

module _ {ℓ} {A : Type ℓ} where
  abbrev pub any : (A → Bool) → List A → Bool
  any p [] = false
  any p (x ∷ xs) = p x || any p xs

  pub any-append : (p : A → Bool) (xs ys : List A) → any p (xs ++ ys) ≡ any p xs || any p ys
  any-append p [] ys = refl
  any-append p (x ∷ xs) ys = ground (arith, any-append p xs ys)

abbrev pub contains : ℕ → List ℕ → Bool
contains t [] = false
contains t (x ∷ xs) = (x == t) || contains t xs

abbrev pub distinct : List ℕ → Bool
distinct [] = true
distinct (x ∷ xs) = not (contains x xs) && distinct xs

pub contains-append :
    (t : ℕ) (xs ys : List ℕ) → contains t (xs ++ ys) ≡ contains t xs || contains t ys
contains-append t [] ys = refl
contains-append t (x ∷ xs) ys = ground (arith, contains-append t xs ys)

pub distinct-concat :
    (xs : List ℕ) (t : ℕ)
    → distinct xs ≡ true
    → contains t xs ≡ false
    → distinct (xs ++ t ∷ []) ≡ true
distinct-concat [] t d h = refl
distinct-concat (x ∷ xs) t d h = ground (arith, contains-append x xs (t ∷ []), distinct-concat xs t)

pub distinct-append : (xs ys : List ℕ) → distinct (xs ++ ys) ≡ true → distinct xs ≡ true
distinct-append [] ys d = refl
distinct-append (x ∷ xs) ys d = ground (arith, contains-append x xs ys, distinct-append xs ys)

-- What is left when one element is taken out.
pub distinct-append_rest :
    (xs : List ℕ) (t : ℕ) (ys : List ℕ)
    → distinct (xs ++ t ∷ ys) ≡ true
    → distinct (xs ++ ys) ≡ true
distinct-append_rest [] t ys d = ground arith
distinct-append_rest (x ∷ xs) t ys d =
    ground
      (arith, contains-append x xs (t ∷ ys), contains-append x xs ys, distinct-append_rest xs t ys)

pub All-contains : (P : ℕ → Type 0) (xs : List ℕ) (t : ℕ) → All P xs → contains t xs ≡ true → P t
All-contains P [] t h k = absurd (ground (arith, k))
All-contains P (x ∷ xs) t h k = elim (Bool-cases (x == t)) [
  | inl here ↦ subst P (ground (arith, here)) h.0
  | inr there ↦ All-contains P xs t h.1 (ground (arith, k))
]
