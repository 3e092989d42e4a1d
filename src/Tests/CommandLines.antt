-- ===== src/Tests/CommandLines.antt =====
-- Command lines of the tools and of the runtime, and the statistics of three frames.
use burnout_3_recompiled.Common.{
  ℕ, true, false, some, none, List, [], ◌∷◌, ◌++◌, ◌+◌, ◌-◌, ◌*◌, ◌/◌, ◌%◌, ◌^◌, ◌&&◌, ◌≡◌, refl,
  arith, if◌then◌else◌, leb, ltb, min, get_or, Text, codes,
}
use burnout_3_recompiled.Tools.Arguments.{is_option, positive_integer, from_chars, digits_from}
use burnout_3_recompiled.Tools.Digits.{is_number, number, positive_integer-number}
use burnout_3_recompiled.Tools.AnalyzeOptions
use burnout_3_recompiled.Tools.PacingProbeOptions
use burnout_3_recompiled.Tools.AnalyzeOptions.{
  Burnout3AnalyzeOptionsResult, Burnout3AnalyzeOptionError, parse_burnout3_analyze_options,
}
use burnout_3_recompiled.Tools.PacingProbeOptions.{parse_burnout3_pacing_probe_options}
use burnout_3_recompiled.Tools.PacingProbeOptions.Reads.{parse_burnout3_pacing_probe_options-Reads}
use burnout_3_recompiled.Core.RuntimeOptions.{Switch, ValueOption, parse}
use burnout_3_recompiled.Core.RuntimeOptions.Described.{
  Setting, value_codes, spell, asked, IsUnknown, IsExclusive, parse-spell, parse-IsExclusive,
}
use burnout_3_recompiled.Core.FrameStats.{Doubles, Sample, empty_sample, snapshot}
use burnout_3_recompiled.Core.FrameStats.Window.{added, get_or-added, snapshot-added}
use burnout_3_recompiled.Core.PacingTelemetry.{
  PacingDoubles, FramePacingTelemetrySummary, to_milliseconds, summarize_frame_pacing,
  summarize_samples, summary_of, with_percentiles, nearest_rank_percentile, sort, insert_sorted,
}
use burnout_3_recompiled.Core.PacingTelemetry.Ranked.{IsOrder, IsSummary}
use burnout_3_recompiled.Core.PacingTelemetry.Sound.{summarize_frame_pacing-IsSummary}
use mathlib.Core.Option

abbrev analyze_args : List Text
analyze_args = codes "--elf" ∷ codes "game.elf" ∷ codes "--max-blocks" ∷ codes "12" ∷ []

reads :
    parse_burnout3_analyze_options analyze_args
    ≡ Burnout3AnalyzeOptionsResult.parsed (record {
      elf_path = codes "game.elf";
      output_path = none;
      max_blocks = 12;
      follow_direct_calls = false;
      show_help = false;
    })
unfolding parse_burnout3_analyze_options AnalyzeOptions.parse_loop AnalyzeOptions.name_of
    AnalyzeOptions.set_value codes is_option positive_integer from_chars digits_from
reads = refl

refuses :
    parse_burnout3_analyze_options (codes "--max-blocks" ∷ codes "12x" ∷ [])
    ≡ Burnout3AnalyzeOptionsResult.fail Burnout3AnalyzeOptionError.invalid_max_blocks
unfolding parse_burnout3_analyze_options AnalyzeOptions.parse_loop AnalyzeOptions.name_of
    AnalyzeOptions.set_value codes is_option positive_integer from_chars digits_from
refuses = refl

abbrev probe_args : List Text
probe_args = codes "--seconds" ∷ codes "5" ∷ codes "--seconds" ∷ []

parse_burnout3_pacing_probe_options-Reads_example :
    PacingProbeOptions.Asked.Reads probe_args (parse_burnout3_pacing_probe_options probe_args)
parse_burnout3_pacing_probe_options-Reads_example =
    parse_burnout3_pacing_probe_options-Reads probe_args

positive_integer-number_example : positive_integer (codes "4096") ≡ (
    if is_number (codes "4096")
      && leb 1 (number 0 (codes "4096"))
      && ltb (number 0 (codes "4096")) (2 ^ 64)
    then some (number 0 (codes "4096"))
    else none)
positive_integer-number_example = positive_integer-number (codes "4096")

abbrev settings : List Setting
settings =
    Setting.switch Switch.fullscreen ∷ Setting.value ValueOption.game_data (codes "disc") ∷ []

help-IsUnknown : IsUnknown (codes "--help")
unfolding codes
help-IsUnknown = (
  (λ e. cc e),
  (
    (λ e. cc e),
    ((λ e. cc e), ((λ e. cc e), ((λ e. cc e), ((λ e. cc e), ((λ e. cc e), ((λ e. cc e), tt)))))),
  ),
)

parse-spell_example :
    (parse (codes "runtime" ∷ spell settings)
      ≡ record { options = asked settings; ok = true; error = [] })
    × (parse (codes "runtime" ∷ spell settings ++ codes "--help" ∷ []) ≡ record {
      options = asked settings;
      ok = false;
      error = codes "Unknown argument: " ++ codes "--help";
    })
    × (parse (codes "runtime" ∷ spell settings ++ value_codes ValueOption.log_level ∷ []) ≡ record {
      options = asked settings;
      ok = false;
      error = value_codes ValueOption.log_level ++ codes " requires a value";
    })
parse-spell_example =
    parse-spell (codes "runtime") settings (codes "--help") [] ValueOption.log_level help-IsUnknown

parse-IsExclusive_example :
    IsExclusive (parse (codes "runtime" ∷ codes "--fullscreen" ∷ codes "--x" ∷ [])).options
parse-IsExclusive_example =
    parse-IsExclusive (codes "runtime" ∷ codes "--fullscreen" ∷ codes "--x" ∷ [])

-- Whole numbers stand in for doubles.
abbrev whole_numbers : Doubles
whole_numbers = record {
  Double = ℕ;
  zero_double = 0;
  one = 1;
  thousand = 1000;
  plus = λ x y. x + y;
  times = λ x y. x * y;
  divided_by = λ x y. x / y;
  is_above = λ x y. ltb y x;
  from_count = λ n. n;
}

abbrev frame : ℕ → Sample whole_numbers
frame n = record { frame_seconds = n; simulation_seconds = 0; render_seconds = 0; sample_steps = n }

get_or-added_example :
    (get_or
        (added whole_numbers (frame 3 ∷ frame 2 ∷ frame 1 ∷ [])).samples
        ((3 - 1 - 1) % 120)
        (empty_sample whole_numbers)
      ≡ frame 2)
    × ((added whole_numbers (frame 3 ∷ frame 2 ∷ frame 1 ∷ [])).count ≡ min 3 120)
get_or-added_example =
    get_or-added whole_numbers (frame 3 ∷ frame 2 ∷ frame 1 ∷ []) 1 (omega arith) (omega arith)

snapshot-added_example :
    ((snapshot whole_numbers (added whole_numbers (frame 3 ∷ frame 2 ∷ []))).simulation_steps ≡ 3)
    × ((snapshot whole_numbers (added whole_numbers (frame 3 ∷ frame 2 ∷ []))).sample_count
        ≡ min 2 120)
snapshot-added_example = snapshot-added whole_numbers (frame 3) (frame 2 ∷ [])

-- Numbers with two decimals, as whole numbers of hundredths.
abbrev hundredths_numbers : PacingDoubles
hundredths_numbers = record {
  base = record {
    Double = ℕ;
    zero_double = 0;
    one = 100;
    thousand = 100000;
    plus = λ x y. x + y;
    times = λ x y. x * y / 100;
    divided_by = λ x y. x * 100 / y;
    is_above = λ x y. ltb y x;
    from_count = λ n. n * 100;
  };
  minus = λ x y. x - y;
  square_root = λ x. x;
  ceiling = λ x. (x + 99) / 100 * 100;
  hundredths = λ n. n;
  to_count = λ x. x / 100;
}

hundredths-IsOrder : IsOrder hundredths_numbers (λ _. Unit)
hundredths-IsOrder = record {
  asymmetric = λ x y _ _ above. ground (arith, above);
  transitive = λ x y z _ _ _ level later. ground (arith, level, later);
}

-- Three frames of 2, 1 and 3 seconds.
summarize_frame_pacing-IsSummary_example :
    (summary : FramePacingTelemetrySummary hundredths_numbers) × (summarize_frame_pacing
        hundredths_numbers
        (200 ∷ 100 ∷ 300 ∷ [])
      ≡ some summary)
    × IsSummary hundredths_numbers (200000 ∷ 100000 ∷ 300000 ∷ []) summary
summarize_frame_pacing-IsSummary_example =
    summarize_frame_pacing-IsSummary hundredths_numbers (λ _. Unit) 200 (100 ∷ 300 ∷ [])
      hundredths-IsOrder (λ percentage hundred. ground (arith, hundred)) (tt, (tt, (tt, tt)))

median :
    Option.map
      (λ (s : FramePacingTelemetrySummary hundredths_numbers). s.p50_ms)
      (summarize_frame_pacing hundredths_numbers (200 ∷ 100 ∷ 300 ∷ []))
    ≡ some 200000
unfolding summarize_frame_pacing summarize_samples summary_of with_percentiles
    nearest_rank_percentile sort insert_sorted to_milliseconds
median = refl
