-- ===== src/Core/PacingTelemetry/Sound.antt =====
-- summarize_frame_pacing of src/core/frame_pacing_telemetry.cpp gives the summary of its samples.
use burnout_3_recompiled.Common.{
  ℕ, suc, Option, some, List, [], ◌∷◌, ◌-◌, ◌^◌, ◌≤◌, ◌<◌, ◌≡◌, refl, sym, ap, ◌∙◌, subst, min, map,
  not, length, get_elem?, All, arith,
}
use burnout_3_recompiled.Core.PacingTelemetry.{
  PacingDoubles, Double, FramePacingTelemetrySummary, nearest_rank_percentile, count_over, sort,
  to_milliseconds, with_percentiles, summary_of, summarize_samples, summarize_frame_pacing,
}
use burnout_3_recompiled.Core.PacingTelemetry.Ranked.{
  IsOrder, nearest_rank, HasRanks, Among, count, IsPercentile, IsSummary,
}
use burnout_3_recompiled.Core.PacingTelemetry.Extremes.{
  Among-self, min_element-IsSmallest, max_element-IsLargest,
}
use burnout_3_recompiled.Core.PacingTelemetry.Sorted.{
  sort-All, All-get_elem?, count-sort, length-sort, sort-IsSorted, IsSorted-StandsAt,
}

count_over-count :
    (d : PacingDoubles) (bound : Double d) (xs : List (Double d))
    → count_over d bound xs ≡ count d (λ x. d.base.is_above x bound) xs
unfolding count_over
count_over-count d bound [] = refl
count_over-count d bound (x ∷ rest) = ground (arith, count_over-count d bound rest)

to_milliseconds-map :
    (d : PacingDoubles) (xs : List (Double d))
    → to_milliseconds d xs ≡ map (λ seconds. d.base.times seconds d.base.thousand) xs
unfolding to_milliseconds
to_milliseconds-map d [] = refl
to_milliseconds-map d (x ∷ rest) =
    ap (λ ys. d.base.times x d.base.thousand ∷ ys) (to_milliseconds-map d rest)

length-map :
    (d : PacingDoubles) (f : Double d → Double d) (xs : List (Double d))
    → length (map f xs) ≡ length xs
length-map d f [] = refl
length-map d f (x ∷ rest) = ap suc (length-map d f rest)

with_percentiles-some :
    (d : PacingDoubles) {p50 p95 p99 : Option (Double d)} {x y z : Double d}
    (summary : Double d → Double d → Double d → FramePacingTelemetrySummary d)
    → p50 ≡ some x
    → p95 ≡ some y
    → p99 ≡ some z
    → with_percentiles d p50 p95 p99 summary ≡ some (summary x y z)
unfolding with_percentiles
with_percentiles-some d summary ex ey ez = rw (ex, ey, ez) refl

-- The read of a list that is not empty.
nearest_rank_percentile-get_elem? :
    (d : PacingDoubles) (xs : List (Double d)) (percentage n : ℕ)
    → length xs ≡ n
    → 1 ≤ n
    → 1 ≤ nearest_rank d percentage n
    → nearest_rank d percentage n < 2 ^ 64
    → nearest_rank_percentile d xs (d.hundredths percentage)
      ≡ get_elem? xs (min (nearest_rank d percentage n) n - 1)
unfolding nearest_rank_percentile
nearest_rank_percentile-get_elem? d [] percentage n e some_left one fits = absurd (omega (arith, e))
nearest_rank_percentile-get_elem? d (x ∷ rest) percentage n e some_left one fits =
    rw e (ap (λ i. get_elem? (x ∷ rest) i) (omega arith))

module _ (d : PacingDoubles) (IsNumber : Double d → Type 0) (order : IsOrder d IsNumber)
    (samples : List (Double d)) (some_left : 1 ≤ length samples)
    (ranks : HasRanks d (length samples)) (numbers : All IsNumber samples) where
  nearest_rank_percentile-IsPercentile :
      (percentage : ℕ)
      → percentage ≤ 100
      → (v : Double d) × (nearest_rank_percentile d (sort d samples) (d.hundredths percentage)
          ≡ some v)
        × IsPercentile d percentage v samples
  nearest_rank_percentile-IsPercentile percentage hundred =
      let n = length samples in
      let r = min (nearest_rank d percentage n) n in
      let known = ranks percentage hundred in
      let at =
        IsSorted-StandsAt d IsNumber order (sort d samples) (r - 1)
          (sort-All d IsNumber samples numbers) (sort-IsSorted d IsNumber order samples numbers)
          (omega (arith, length-sort d samples, known.0, some_left)) in
      (
        at.element,
        nearest_rank_percentile-get_elem? d (sort d samples) percentage n (length-sort d samples)
              some_left known.0 known.1
            ∙ at.stands,
        record {
          is_sample =
              All-get_elem? d (λ v. Among d v samples) (sort d samples) (r - 1)
                (sort-All d (λ v. Among d v samples) samples (Among-self d samples)) at.stands;
          few_below = omega (
            arith,
            at.below,
            known.0,
            some_left,
            count-sort d (λ x. d.base.is_above at.element x) samples,
          );
          enough_up_to = omega (
            arith,
            at.up_to,
            known.0,
            some_left,
            count-sort d (λ x. not (d.base.is_above x at.element)) samples,
          );
        },
      )

summarize_samples-IsSummary :
    (d : PacingDoubles) (IsNumber : Double d → Type 0) (first : Double d) (rest : List (Double d))
    → IsOrder d IsNumber
    → HasRanks d (length (first ∷ rest))
    → All IsNumber (first ∷ rest)
    → (summary : FramePacingTelemetrySummary d) × (summarize_samples d (first ∷ rest)
        ≡ some summary)
      × IsSummary d (first ∷ rest) summary
unfolding summarize_samples summary_of
summarize_samples-IsSummary d IsNumber first rest order ranks numbers =
    let samples = first ∷ rest in
    let percentile =
      nearest_rank_percentile-IsPercentile d IsNumber order samples (omega arith) ranks numbers in
    let p50 = percentile 50 (omega arith) in
    let p95 = percentile 95 (omega arith) in
    let p99 = percentile 99 (omega arith) in
    (
      summary_of d first rest p50.0 p95.0 p99.0,
      with_percentiles-some d (summary_of d first rest) p50.1 p95.1 p99.1,
      record {
        counted = refl;
        smallest = min_element-IsSmallest d IsNumber order first rest numbers;
        largest = max_element-IsLargest d IsNumber order first rest numbers;
        median = p50.2;
        percentile_95 = p95.2;
        percentile_99 = p99.2;
        late_120hz = count_over-count d _ samples;
        late_9 = count_over-count d _ samples;
        late_10 = count_over-count d _ samples;
        late_12 = count_over-count d _ samples;
      },
    )

-- With a host whose comparison orders numbers and whose ranks are at least 1 and fit in 64 bits, the
-- summary of frames whose times in milliseconds are all numbers has their count, their smallest and
-- largest, their median and 95th and 99th percentiles by the nearest rank, and how many of them are
-- over each bound. No sample is read out of range.
pub summarize_frame_pacing-IsSummary :
    (d : PacingDoubles) (IsNumber : Double d → Type 0) (first : Double d) (rest : List (Double d))
    → IsOrder d IsNumber
    → HasRanks d (length (first ∷ rest))
    → All IsNumber (map (λ seconds. d.base.times seconds d.base.thousand) (first ∷ rest))
    → (summary : FramePacingTelemetrySummary d) × (summarize_frame_pacing d (first ∷ rest)
        ≡ some summary)
      × IsSummary d (map (λ seconds. d.base.times seconds d.base.thousand) (first ∷ rest)) summary
unfolding summarize_frame_pacing
summarize_frame_pacing-IsSummary d IsNumber first rest order ranks numbers =
    rw (to_milliseconds-map d (first ∷ rest)) (
      summarize_samples-IsSummary d IsNumber (d.base.times first d.base.thousand)
        (map (λ seconds. d.base.times seconds d.base.thousand) rest) order
        (subst (HasRanks d) (ap suc (sym (length-map d _ rest))) ranks) numbers)
