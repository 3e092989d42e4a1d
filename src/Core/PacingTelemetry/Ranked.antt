-- ===== src/Core/PacingTelemetry/Ranked.antt =====
-- What a summary of samples says, without the algorithms of src/core/frame_pacing_telemetry.cpp.
use burnout_3_recompiled.Common.{
  ℕ, Bool, true, false, List, [], ◌∷◌, ◌+◌, ◌^◌, ◌≤◌, ◌<◌, ◌≡◌, ◌⊎◌, min, not, if◌then◌else◌,
  length, All,
}
use burnout_3_recompiled.Core.PacingTelemetry.{PacingDoubles, Double, FramePacingTelemetrySummary}

module _ (d : PacingDoubles) where
  -- The comparison of doubles on those that are numbers: a double that is not one compares with none.
  pub record IsOrder (IsNumber : Double d → Type 0) : Type 0 where
    pub asymmetric :
        (x y : Double d)
        → IsNumber x
        → IsNumber y
        → d.base.is_above x y ≡ true
        → d.base.is_above y x ≡ false
    pub transitive :
        (x y z : Double d)
        → IsNumber x
        → IsNumber y
        → IsNumber z
        → d.base.is_above x y ≡ false
        → d.base.is_above y z ≡ false
        → d.base.is_above x z ≡ false

  -- The nearest rank of a percentile among `n` samples: the percentage of `n` rounded up, and at
  -- least 1.
  abbrev pub nearest_rank : ℕ → ℕ → ℕ
  nearest_rank percentage n =
      let rank = d.ceiling (d.base.times (d.hundredths percentage) (d.base.from_count n)) in
      d.to_count (if d.base.is_above rank d.base.one then rank else d.base.one)

  -- A double of at least 1 that is converted to std::size_t is at least 1 and fits.
  abbrev pub HasRanks : ℕ → Type 0
  HasRanks n =
      (percentage : ℕ)
      → percentage ≤ 100
      → (1 ≤ nearest_rank percentage n) × (nearest_rank percentage n < 2 ^ 64)

  abbrev pub Among : Double d → List (Double d) → Type 0
  Among v [] = ⊥
  Among v (x ∷ xs) = (v ≡ x) ⊎ Among v xs

  abbrev pub count : (Double d → Bool) → List (Double d) → ℕ
  count test [] = 0
  count test (x ∷ xs) = count test xs + (if test x then 1 else 0)

  pub record IsSmallest (v : Double d) (samples : List (Double d)) : Type 0 where
    pub is_sample : Among v samples
    pub below_all : All (λ (x : Double d). d.base.is_above v x ≡ false) samples

  pub record IsLargest (v : Double d) (samples : List (Double d)) : Type 0 where
    pub is_sample : Among v samples
    pub above_all : All (λ (x : Double d). d.base.is_above x v ≡ false) samples

  -- Fewer than `rank` samples are below the value, and at least `rank` are not above it.
  pub record IsRanked (rank : ℕ) (v : Double d) (samples : List (Double d)) : Type 0 where
    pub is_sample : Among v samples
    pub few_below : count (λ x. d.base.is_above v x) samples < rank
    pub enough_up_to : rank ≤ count (λ x. not (d.base.is_above x v)) samples

  -- The percentile, a rank past the samples counting as their last.
  abbrev pub IsPercentile : ℕ → Double d → List (Double d) → Type 0
  IsPercentile percentage v samples =
      IsRanked (min (nearest_rank percentage (length samples)) (length samples)) v samples

  pub record IsSummary (samples : List (Double d)) (s : FramePacingTelemetrySummary d)
      : Type 0 where
    pub counted : s.sample_count ≡ length samples
    pub smallest : IsSmallest s.min_ms samples
    pub largest : IsLargest s.max_ms samples
    pub median : IsPercentile 50 s.p50_ms samples
    pub percentile_95 : IsPercentile 95 s.p95_ms samples
    pub percentile_99 : IsPercentile 99 s.p99_ms samples
    pub late_120hz :
        s.over_8_333ms
        ≡ count
            (λ x. d.base.is_above x (d.base.divided_by d.base.thousand (d.base.from_count 120)))
            samples
    pub late_9 : s.over_9ms ≡ count (λ x. d.base.is_above x (d.base.from_count 9)) samples
    pub late_10 : s.over_10ms ≡ count (λ x. d.base.is_above x (d.base.from_count 10)) samples
    pub late_12 : s.over_12ms ≡ count (λ x. d.base.is_above x (d.base.from_count 12)) samples
