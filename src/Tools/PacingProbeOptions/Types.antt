-- ===== src/Tools/PacingProbeOptions/Types.antt =====
-- src/tools/burnout3_pacing_probe_options.h: the options, and the errors of their parser.
use burnout_3_recompiled.Common.{ℕ, Bool, Option, Text}

pub data Burnout3PacingProbeOptionError : Type 0 where
  none missing_value duplicate_option unknown_option invalid_seconds :
      Burnout3PacingProbeOptionError

pub record Burnout3PacingProbeOptions : Type 0 where
  pub seconds : ℕ
  pub output_path : Option Text
  pub show_help : Bool

-- The options, or the error for which there are none.
pub data Burnout3PacingProbeOptionsResult : Type 0 where
  parsed : Burnout3PacingProbeOptions → Burnout3PacingProbeOptionsResult
  fail : Burnout3PacingProbeOptionError → Burnout3PacingProbeOptionsResult

-- The variables of the loop.
pub record ParserState : Type 0 where
  pub options : Burnout3PacingProbeOptions
  pub saw_seconds : Bool
  pub saw_output : Bool
  pub saw_help : Bool

-- The options that take a value.
pub data ValueOption : Type 0 where
  seconds output : ValueOption

-- What the comparisons with the names find an argument to be.
pub data OptionName : Type 0 where
  help unknown : OptionName
  valued : ValueOption → OptionName
