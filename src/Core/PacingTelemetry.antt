-- ===== src/Core/PacingTelemetry.antt =====
-- src/core/frame_pacing_telemetry.h and frame_pacing_telemetry.cpp: the summary of the times of frames.
-- The host's doubles are a parameter, and std::sort is an insertion sort.
pub mod Ranked
pub mod Extremes
pub mod Sorted
pub mod Sound
use burnout_3_recompiled.Common.{
  ℕ, zero, suc, Bool, true, false, List, [], ◌∷◌, ◌+◌, ◌-◌, ◌%◌, ◌^◌, map, min, if◌then◌else◌,
  length, get_elem?, Option, some, none,
}
use burnout_3_recompiled.Core.FrameStats.{Doubles}

-- More operations on doubles: `hundredths n` is the double for n / 100, and `to_count` the conversion
-- to std::size_t.
pub record PacingDoubles : Type 1 where
  pub base : Doubles
  pub minus : base.Double → base.Double → base.Double
  pub square_root : base.Double → base.Double
  pub ceiling : base.Double → base.Double
  pub hundredths : ℕ → base.Double
  pub to_count : base.Double → ℕ

module _ (d : PacingDoubles) where
  abbrev pub Double : Type 0
  Double = d.base.Double

  pub record FramePacingTelemetrySummary : Type 0 where
    pub sample_count : ℕ
    pub mean_ms : Double
    pub min_ms : Double
    pub max_ms : Double
    pub stddev_ms : Double
    pub p50_ms : Double
    pub p95_ms : Double
    pub p99_ms : Double
    pub over_8_333ms : ℕ
    pub over_9ms : ℕ
    pub over_10ms : ℕ
    pub over_12ms : ℕ

  abbrev pub milliseconds_per_second : Double
  milliseconds_per_second = d.base.thousand

  abbrev pub target_120hz_ms : Double
  target_120hz_ms = d.base.divided_by milliseconds_per_second (d.base.from_count 120)

  -- std::max.
  abbrev pub larger : Double → Double → Double
  larger x y = if d.base.is_above y x then y else x

  -- The element at the index, or none where the index is out of range.
  unfoldable pub nearest_rank_percentile : List Double → Double → Option Double
  nearest_rank_percentile [] percentile = some d.base.zero_double
  nearest_rank_percentile (first ∷ rest) percentile =
      let sorted_ms = first ∷ rest in
      let rank = d.ceiling (d.base.times percentile (d.base.from_count (length sorted_ms))) in
      let one_based_rank = d.to_count (larger d.base.one rank) in
      get_elem? sorted_ms (min ((one_based_rank + 2 ^ 64 - 1) % 2 ^ 64) (length sorted_ms - 1))

  -- std::min_element and std::max_element, with the element that was found so far.
  unfoldable pub min_element : Double → List Double → Double
  min_element found [] = found
  min_element found (x ∷ rest) = min_element (if d.base.is_above found x then x else found) rest

  unfoldable pub max_element : Double → List Double → Double
  max_element found [] = found
  max_element found (x ∷ rest) = max_element (if d.base.is_above x found then x else found) rest

  unfoldable pub accumulate : Double → List Double → Double
  accumulate sum [] = sum
  accumulate sum (x ∷ rest) = accumulate (d.base.plus sum x) rest

  -- The loop over the samples: the squared deviations, and the samples above a bound.
  unfoldable pub squared_deviations : Double → Double → List Double → Double
  squared_deviations mean sum [] = sum
  squared_deviations mean sum (x ∷ rest) =
      let deviation = d.minus x mean in
      squared_deviations mean (d.base.plus sum (d.base.times deviation deviation)) rest

  unfoldable pub count_over : Double → List Double → ℕ
  count_over bound [] = 0
  count_over bound (x ∷ rest) =
      let later = count_over bound rest in if d.base.is_above x bound then later + 1 else later

  unfoldable pub insert_sorted : Double → List Double → List Double
  insert_sorted x [] = x ∷ []
  insert_sorted x (y ∷ rest) =
      let later = insert_sorted x rest in if d.base.is_above x y then y ∷ later else x ∷ y ∷ rest

  unfoldable pub sort : List Double → List Double
  unfolding insert_sorted
  sort [] = []
  sort (x ∷ rest) = insert_sorted x (sort rest)

  abbrev pub no_summary : FramePacingTelemetrySummary
  no_summary =
      let none = d.base.zero_double in
      record {
        sample_count = 0;
        mean_ms = none;
        min_ms = none;
        max_ms = none;
        stddev_ms = none;
        p50_ms = none;
        p95_ms = none;
        p99_ms = none;
        over_8_333ms = 0;
        over_9ms = 0;
        over_10ms = 0;
        over_12ms = 0;
      }

  unfoldable pub to_milliseconds : List Double → List Double
  to_milliseconds [] = []
  to_milliseconds (seconds ∷ rest) =
      d.base.times seconds milliseconds_per_second ∷ to_milliseconds rest

  -- The summary, once the three percentiles are read.
  unfoldable pub with_percentiles :
      Option Double
      → Option Double
      → Option Double
      → (Double → Double → Double → FramePacingTelemetrySummary)
      → Option FramePacingTelemetrySummary
  with_percentiles (some p50) (some p95) (some p99) summary = some (summary p50 p95 p99)
  with_percentiles _ _ _ summary = none

  -- The summary of the samples in milliseconds, with their percentiles.
  unfoldable pub summary_of :
      Double → List Double → Double → Double → Double → FramePacingTelemetrySummary
  summary_of first rest p50 p95 p99 =
      let samples_ms = first ∷ rest in
      let size = d.base.from_count (length samples_ms) in
      let mean = d.base.divided_by (accumulate d.base.zero_double samples_ms) size in
      record {
        sample_count = length samples_ms;
        mean_ms = mean;
        min_ms = min_element first rest;
        max_ms = max_element first rest;
        stddev_ms =
            d.square_root
              (d.base.divided_by (squared_deviations mean d.base.zero_double samples_ms) size);
        p50_ms = p50;
        p95_ms = p95;
        p99_ms = p99;
        over_8_333ms = count_over target_120hz_ms samples_ms;
        over_9ms = count_over (d.base.from_count 9) samples_ms;
        over_10ms = count_over (d.base.from_count 10) samples_ms;
        over_12ms = count_over (d.base.from_count 12) samples_ms;
      }

  -- None after a read out of range.
  unfoldable pub summarize_samples : List Double → Option FramePacingTelemetrySummary
  unfolding with_percentiles
  summarize_samples [] = some no_summary
  summarize_samples (first ∷ rest) =
      let sorted_ms = sort (first ∷ rest) in
      with_percentiles (nearest_rank_percentile sorted_ms (d.hundredths 50))
        (nearest_rank_percentile sorted_ms (d.hundredths 95))
        (nearest_rank_percentile sorted_ms (d.hundredths 99)) (summary_of first rest)

  unfoldable pub summarize_frame_pacing : List Double → Option FramePacingTelemetrySummary
  summarize_frame_pacing frame_seconds = summarize_samples (to_milliseconds frame_seconds)
