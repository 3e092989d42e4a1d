-- ===== src/Core/FrameStats.antt =====
-- src/core/frame_stats.h and frame_stats.cpp: the statistics of the last frames. The host's doubles are
-- a parameter. The array of samples is a list.
pub mod Window
use burnout_3_recompiled.Common.{
  ℕ, zero, suc, Bool, List, [], ◌∷◌, ◌+◌, ◌-◌, ◌%◌, ◌==◌, if◌then◌else◌, ltb, get_or, set,
  replicate,
}

-- The operations on doubles that the source uses.
pub record Doubles : Type 1 where
  pub Double : Type 0
  pub zero_double : Double
  pub one : Double
  pub thousand : Double
  pub plus : Double → Double → Double
  pub times : Double → Double → Double
  pub divided_by : Double → Double → Double
  pub is_above : Double → Double → Bool
  pub from_count : ℕ → Double

abbrev pub window_size : ℕ
window_size = 120

module _ (d : Doubles) where
  pub record FrameStatsSnapshot : Type 0 where
    pub fps : d.Double
    pub frame_time_ms : d.Double
    pub simulation_time_ms : d.Double
    pub render_time_ms : d.Double
    pub simulation_steps : ℕ
    pub sample_count : ℕ

  pub record Sample : Type 0 where
    pub frame_seconds : d.Double
    pub simulation_seconds : d.Double
    pub render_seconds : d.Double
    pub sample_steps : ℕ

  pub record FrameStats : Type 0 where
    pub samples : List Sample
    pub next_index : ℕ
    pub count : ℕ

  abbrev pub empty_sample : Sample
  empty_sample = record {
    frame_seconds = d.zero_double;
    simulation_seconds = d.zero_double;
    render_seconds = d.zero_double;
    sample_steps = 0;
  }

  unfoldable pub reset : FrameStats
  reset = record { samples = replicate window_size empty_sample; next_index = 0; count = 0 }

  unfoldable pub add_frame : Sample → FrameStats → FrameStats
  add_frame sample stats = record {
    samples = set stats.samples stats.next_index sample;
    next_index = (stats.next_index + 1) % window_size;
    count = if ltb stats.count window_size then stats.count + 1 else stats.count;
  }

  abbrev pub no_snapshot : FrameStatsSnapshot
  no_snapshot = record {
    fps = d.zero_double;
    frame_time_ms = d.zero_double;
    simulation_time_ms = d.zero_double;
    render_time_ms = d.zero_double;
    simulation_steps = 0;
    sample_count = 0;
  }

  -- The loop over the samples for one of the totals, with `left` samples to go from `index` on.
  unfoldable pub total : (Sample → d.Double) → List Sample → ℕ → ℕ → d.Double → d.Double
  total field samples zero index sum = sum
  total field samples (suc left) index sum =
      total field samples left (index + 1) (d.plus sum (field (get_or samples index empty_sample)))

  unfoldable pub snapshot : FrameStats → FrameStatsSnapshot
  unfolding total
  snapshot stats =
      let frame_total =
        total (λ (x : Sample). x.frame_seconds) stats.samples stats.count 0 d.zero_double in
      let simulation_total =
        total (λ (x : Sample). x.simulation_seconds) stats.samples stats.count 0 d.zero_double in
      let render_total =
        total (λ (x : Sample). x.render_seconds) stats.samples stats.count 0 d.zero_double in
      let count = d.from_count stats.count in
      let average_frame_seconds = d.divided_by frame_total count in
      let latest =
        get_or stats.samples ((stats.next_index + window_size - 1) % window_size) empty_sample in
      if stats.count == 0 then no_snapshot else record {
        fps =
            if d.is_above average_frame_seconds d.zero_double
            then d.divided_by d.one average_frame_seconds
            else d.zero_double;
        frame_time_ms = d.times average_frame_seconds d.thousand;
        simulation_time_ms = d.times (d.divided_by simulation_total count) d.thousand;
        render_time_ms = d.times (d.divided_by render_total count) d.thousand;
        simulation_steps = latest.sample_steps;
        sample_count = stats.count;
      }
