-- ===== src/Common/Switch.antt =====
-- A `switch` over numbers: the first case that is equal to the scrutinee, or the default.
use Prim.Native.Nat.{ℕ}
use mathlib.Core.List.{List, [], ◌∷◌}
use burnout_3_recompiled.Common.Tests.{◌==◌, if◌then◌else◌, if_both}
use burnout_3_recompiled.Common.Lists.{All}

unfoldable pub switch {ℓ} : {A : Type ℓ} → ℕ → List (ℕ × A) → A → A
switch x [] d = d
switch x ((k, a) ∷ cases) d = if x == k then a else switch x cases d

-- What holds in every case and in the default holds of the result.
pub switch-All {ℓ κ} :
    {A : Type ℓ} (P : A → Type κ) (x : ℕ) (cases : List (ℕ × A)) (d : A)
    → All (λ (c : ℕ × A). P c.1) cases
    → P d
    → P (switch x cases d)
unfolding switch
switch-All P x [] d h hd = hd
switch-All P x ((k, a) ∷ cases) d h hd = if_both P (x == k) h.0 (switch-All P x cases d h.1 hd)
