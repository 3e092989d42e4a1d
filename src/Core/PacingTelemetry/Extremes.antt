-- ===== src/Core/PacingTelemetry/Extremes.antt =====
-- std::min_element and std::max_element find the smallest and the largest sample.
use burnout_3_recompiled.Common.{
  false, List, [], ◌∷◌, ◌≡◌, refl, sym, subst, inl, inr, if◌then◌else◌, if_both, Bool-cases, All,
  All-map,
}
use burnout_3_recompiled.Core.PacingTelemetry.{PacingDoubles, Double, min_element, max_element}
use burnout_3_recompiled.Core.PacingTelemetry.Ranked.{IsOrder, Among, IsSmallest, IsLargest}

module _ (d : PacingDoubles) (P : Double d → Type 0) where
  min_element-All :
      (found : Double d) (xs : List (Double d)) → P found → All P xs → P (min_element d found xs)
  unfolding min_element
  min_element-All found [] p h = p
  min_element-All found (x ∷ rest) p h =
      min_element-All (if d.base.is_above found x then x else found) rest
        (if_both P (d.base.is_above found x) h.0 p) h.1

  max_element-All :
      (found : Double d) (xs : List (Double d)) → P found → All P xs → P (max_element d found xs)
  unfolding max_element
  max_element-All found [] p h = p
  max_element-All found (x ∷ rest) p h =
      max_element-All (if d.base.is_above x found then x else found) rest
        (if_both P (d.base.is_above x found) h.0 p) h.1

module _ (d : PacingDoubles) where
  -- Each element of a list is among its elements.
  pub Among-self : (xs : List (Double d)) → All (λ (v : Double d). Among d v xs) xs
  Among-self [] = tt
  Among-self (x ∷ rest) = (inl refl, All-map (λ v h. inr h) rest (Among-self rest))

module _ (d : PacingDoubles) (IsNumber : Double d → Type 0) (order : IsOrder d IsNumber) where
  pub reflexive : (x : Double d) → IsNumber x → d.base.is_above x x ≡ false
  reflexive x n = elim (Bool-cases (d.base.is_above x x)) [
    | inl above ↦ order.asymmetric x x n n above
    | inr level ↦ level
  ]

  min_element-below :
      (found : Double d) (xs : List (Double d))
      → IsNumber found
      → All IsNumber xs
      → All (λ (x : Double d). d.base.is_above (min_element d found xs) x ≡ false) (found ∷ xs)
  unfolding min_element
  min_element-below found [] n h = (reflexive found n, tt)
  min_element-below found (x ∷ rest) n h = elim (Bool-cases (d.base.is_above found x)) [
    | inl above ↦
        let later = min_element-below x rest h.0 h.1 in
        let m = min_element-All d IsNumber x rest h.0 h.1 in
        let step : min_element d found (x ∷ rest) ≡ min_element d x rest = rw above refl in
        subst (λ (least : Double d). All (λ y. d.base.is_above least y ≡ false) (found ∷ x ∷ rest))
          (sym step)
          (
            order.transitive _ x found m h.0 n later.0 (order.asymmetric found x n h.0 above),
            (later.0, later.1),
          )
    | inr level ↦
        let later = min_element-below found rest n h.1 in
        let m = min_element-All d IsNumber found rest n h.1 in
        let step : min_element d found (x ∷ rest) ≡ min_element d found rest = rw level refl in
        subst (λ (least : Double d). All (λ y. d.base.is_above least y ≡ false) (found ∷ x ∷ rest))
          (sym step) (later.0, (order.transitive _ found x m n h.0 later.0 level, later.1))
  ]

  max_element-above :
      (found : Double d) (xs : List (Double d))
      → IsNumber found
      → All IsNumber xs
      → All (λ (x : Double d). d.base.is_above x (max_element d found xs) ≡ false) (found ∷ xs)
  unfolding max_element
  max_element-above found [] n h = (reflexive found n, tt)
  max_element-above found (x ∷ rest) n h = elim (Bool-cases (d.base.is_above x found)) [
    | inl above ↦
        let later = max_element-above x rest h.0 h.1 in
        let m = max_element-All d IsNumber x rest h.0 h.1 in
        let step : max_element d found (x ∷ rest) ≡ max_element d x rest = rw above refl in
        subst (λ (most : Double d). All (λ y. d.base.is_above y most ≡ false) (found ∷ x ∷ rest))
          (sym step)
          (
            order.transitive found x _ n h.0 m (order.asymmetric x found h.0 n above) later.0,
            (later.0, later.1),
          )
    | inr level ↦
        let later = max_element-above found rest n h.1 in
        let m = max_element-All d IsNumber found rest n h.1 in
        let step : max_element d found (x ∷ rest) ≡ max_element d found rest = rw level refl in
        subst (λ (most : Double d). All (λ y. d.base.is_above y most ≡ false) (found ∷ x ∷ rest))
          (sym step) (later.0, (order.transitive x found _ h.0 n m level later.0, later.1))
  ]

  pub min_element-IsSmallest :
      (first : Double d) (rest : List (Double d))
      → All IsNumber (first ∷ rest)
      → IsSmallest d (min_element d first rest) (first ∷ rest)
  min_element-IsSmallest first rest h = record {
    is_sample =
        min_element-All d (λ v. Among d v (first ∷ rest)) first rest (Among-self d (first ∷ rest)).0
          (Among-self d (first ∷ rest)).1;
    below_all = min_element-below first rest h.0 h.1;
  }

  pub max_element-IsLargest :
      (first : Double d) (rest : List (Double d))
      → All IsNumber (first ∷ rest)
      → IsLargest d (max_element d first rest) (first ∷ rest)
  max_element-IsLargest first rest h = record {
    is_sample =
        max_element-All d (λ v. Among d v (first ∷ rest)) first rest (Among-self d (first ∷ rest)).0
          (Among-self d (first ∷ rest)).1;
    above_all = max_element-above first rest h.0 h.1;
  }
