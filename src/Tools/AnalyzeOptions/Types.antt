-- ===== src/Tools/AnalyzeOptions/Types.antt =====
-- src/tools/burnout3_analyze_options.h: the options, and the errors of their parser.
use burnout_3_recompiled.Common.{ℕ, Bool, Option, Text}

pub data Burnout3AnalyzeOptionError : Type 0 where
  none missing_elf_path missing_value duplicate_option : Burnout3AnalyzeOptionError
  unknown_option invalid_max_blocks : Burnout3AnalyzeOptionError

pub record Burnout3AnalyzeOptions : Type 0 where
  pub elf_path : Text
  pub output_path : Option Text
  pub max_blocks : ℕ
  pub follow_direct_calls : Bool
  pub show_help : Bool

-- The options, or the error for which there are none.
pub data Burnout3AnalyzeOptionsResult : Type 0 where
  parsed : Burnout3AnalyzeOptions → Burnout3AnalyzeOptionsResult
  fail : Burnout3AnalyzeOptionError → Burnout3AnalyzeOptionsResult

-- The variables of the loop.
pub record ParserState : Type 0 where
  pub options : Burnout3AnalyzeOptions
  pub saw_elf : Bool
  pub saw_output : Bool
  pub saw_max_blocks : Bool
  pub saw_follow_direct_calls : Bool

-- The options that take a value.
pub data ValueOption : Type 0 where
  elf output max_blocks : ValueOption

-- What the comparisons with the names find an argument to be.
pub data OptionName : Type 0 where
  help follow_direct_calls unknown : OptionName
  valued : ValueOption → OptionName
