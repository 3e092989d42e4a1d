-- ===== src/Core/PacingTelemetry/Sorted.antt =====
-- The sorted samples, and the ranks of their elements.
use burnout_3_recompiled.Common.{
  ℕ, zero, suc, Bool, false, some, List, [], ◌∷◌, ◌+◌, ◌≤◌, ◌<◌, ◌≡◌, refl, subst, ap, ◌∙◌, inl,
  inr, not, if◌then◌else◌, if_both, Bool-cases, length, get_elem?, All, arith,
}
use burnout_3_recompiled.Core.PacingTelemetry.{PacingDoubles, Double, insert_sorted, sort}
use burnout_3_recompiled.Core.PacingTelemetry.Ranked.{IsOrder, count}
use burnout_3_recompiled.Core.PacingTelemetry.Extremes.{reflexive}

-- Sorting keeps what holds of all samples, and how many of them pass a test.
module _ (d : PacingDoubles) (P : Double d → Type 0) where
  pub insert_sorted-All :
      (x : Double d) (xs : List (Double d)) → P x → All P xs → All P (insert_sorted d x xs)
  unfolding insert_sorted
  insert_sorted-All x [] p h = (p, tt)
  insert_sorted-All x (y ∷ rest) p h =
      if_both (λ (ys : List (Double d)). All P ys) (d.base.is_above x y)
        (h.0, insert_sorted-All x rest p h.1) (p, (h.0, h.1))

  pub sort-All : (xs : List (Double d)) → All P xs → All P (sort d xs)
  unfolding sort
  sort-All [] h = tt
  sort-All (x ∷ rest) h = insert_sorted-All x (sort d rest) h.0 (sort-All rest h.1)

  pub All-get_elem? :
      (xs : List (Double d)) (i : ℕ) {v : Double d} → All P xs → get_elem? xs i ≡ some v → P v
  All-get_elem? [] i h e = absurd (cc e)
  All-get_elem? (x ∷ rest) zero h e = subst P (cc e) h.0
  All-get_elem? (x ∷ rest) (suc i) h e = All-get_elem? rest i h.1 e

module _ (d : PacingDoubles) (test : Double d → Bool) where
  count-insert_sorted :
      (x : Double d) (xs : List (Double d))
      → count d test (insert_sorted d x xs) ≡ count d test (x ∷ xs)
  unfolding insert_sorted
  count-insert_sorted x [] = refl
  count-insert_sorted x (y ∷ rest) = elim (Bool-cases (d.base.is_above x y)) [
    | inl above ↦ rw above (omega (arith, count-insert_sorted x rest))
    | inr below ↦ rw below refl
  ]

  pub count-sort : (xs : List (Double d)) → count d test (sort d xs) ≡ count d test xs
  unfolding sort
  count-sort [] = refl
  count-sort (x ∷ rest) =
      count-insert_sorted x (sort d rest)
      ∙ ap (λ n. n + (if test x then 1 else 0)) (count-sort rest)

  count-none :
      (xs : List (Double d)) → All (λ (x : Double d). test x ≡ false) xs → count d test xs ≡ 0
  count-none [] h = refl
  count-none (x ∷ rest) h = rw h.0 (omega (arith, count-none rest h.1))

length-insert_sorted :
    (d : PacingDoubles) (x : Double d) (xs : List (Double d))
    → length (insert_sorted d x xs) ≡ suc (length xs)
unfolding insert_sorted
length-insert_sorted d x [] = refl
length-insert_sorted d x (y ∷ rest) = elim (Bool-cases (d.base.is_above x y)) [
  | inl above ↦ rw above (omega (arith, length-insert_sorted d x rest))
  | inr below ↦ rw below refl
]

pub length-sort : (d : PacingDoubles) (xs : List (Double d)) → length (sort d xs) ≡ length xs
unfolding sort
length-sort d [] = refl
length-sort d (x ∷ rest) = omega (arith, length-insert_sorted d x (sort d rest), length-sort d rest)

module _ (d : PacingDoubles) where
  abbrev AtMost : Double d → List (Double d) → Type 0
  AtMost y xs = All (λ (x : Double d). d.base.is_above y x ≡ false) xs

  abbrev pub IsSorted : List (Double d) → Type 0
  IsSorted [] = Unit
  IsSorted (x ∷ rest) = AtMost x rest × IsSorted rest

module _ (d : PacingDoubles) (IsNumber : Double d → Type 0) (order : IsOrder d IsNumber) where
  AtMost-trans :
      (y z : Double d) (xs : List (Double d))
      → IsNumber y
      → IsNumber z
      → All IsNumber xs
      → d.base.is_above y z ≡ false
      → AtMost d z xs
      → AtMost d y xs
  AtMost-trans y z [] ny nz h below at = tt
  AtMost-trans y z (x ∷ rest) ny nz h below at =
      (order.transitive y z x ny nz h.0 below at.0, AtMost-trans y z rest ny nz h.1 below at.1)

  insert_sorted-IsSorted :
      (x : Double d) (xs : List (Double d))
      → IsNumber x
      → All IsNumber xs
      → IsSorted d xs
      → IsSorted d (insert_sorted d x xs)
  unfolding insert_sorted
  insert_sorted-IsSorted x [] n h s = (tt, tt)
  insert_sorted-IsSorted x (y ∷ rest) n h s = elim (Bool-cases (d.base.is_above x y)) [
    | inl above ↦ rw above (
      insert_sorted-All d (λ z. d.base.is_above y z ≡ false) x rest
          (order.asymmetric x y n h.0 above) s.0,
      insert_sorted-IsSorted x rest n h.1 s.1,
    )
    | inr below ↦ rw below ((below, AtMost-trans x y rest n h.0 h.1 below s.0), (s.0, s.1))
  ]

  pub sort-IsSorted : (xs : List (Double d)) → All IsNumber xs → IsSorted d (sort d xs)
  unfolding sort
  sort-IsSorted [] h = tt
  sort-IsSorted (x ∷ rest) h =
      insert_sorted-IsSorted x (sort d rest) h.0 (sort-All d IsNumber rest h.1)
        (sort-IsSorted rest h.1)

  -- The element at an index of a sorted list has at most as many elements below it, and more that
  -- are not above it.
  pub record StandsAt (i : ℕ) (xs : List (Double d)) : Type 0 where
    pub element : Double d
    pub stands : get_elem? xs i ≡ some element
    pub below : count d (λ x. d.base.is_above element x) xs ≤ i
    pub up_to : i < count d (λ x. not (d.base.is_above x element)) xs

  pub IsSorted-StandsAt :
      (xs : List (Double d)) (i : ℕ)
      → All IsNumber xs
      → IsSorted d xs
      → i < length xs
      → StandsAt i xs
  IsSorted-StandsAt [] i h s within = absurd (omega arith)
  IsSorted-StandsAt (x ∷ rest) zero h s within = record {
    element = x;
    stands = refl;
    below =
        rw (reflexive d IsNumber order x h.0)
          (omega (arith, count-none d (λ y. d.base.is_above x y) rest s.0));
    up_to = rw (reflexive d IsNumber order x h.0) (omega arith);
  }
  IsSorted-StandsAt (x ∷ rest) (suc i) h s within =
      let later = IsSorted-StandsAt rest i h.1 s.1 (omega arith) in
      let level = All-get_elem? d (λ y. d.base.is_above x y ≡ false) rest i s.0 later.stands in
      record {
        element = later.element;
        stands = later.stands;
        below = ground (arith, later.below);
        up_to = rw level (omega (arith, later.up_to));
      }
