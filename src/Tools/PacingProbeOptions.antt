-- ===== src/Tools/PacingProbeOptions.antt =====
-- src/tools/burnout3_pacing_probe_options.cpp: the command line of the pacing probe.
-- The flags are fields beside the options. Where the source takes the next argument as a value, the
-- loop goes on with an option that waits for it.
mod Types
pub mod Described
pub mod Complete
pub mod Asked
pub mod Reads
pub use Types.{
  Burnout3PacingProbeOptionError, Burnout3PacingProbeOptions, Burnout3PacingProbeOptionsResult,
  ParserState, OptionName, ValueOption,
}
use burnout_3_recompiled.Common.{
  ℕ, Bool, true, false, Option, some, none, List, [], ◌∷◌, ◌||◌, if◌then◌else◌, Text, codes,
  text_equal,
}
use burnout_3_recompiled.Tools.Arguments.{is_option, positive_integer}
use Types.{Burnout3PacingProbeOptionError as Error}
use Types.Burnout3PacingProbeOptionsResult.{parsed, fail}

unfoldable pub name_of : Text → OptionName
unfolding codes
name_of arg =
    if text_equal arg (codes "--help")
    then OptionName.help
    else if text_equal arg (codes "--seconds")
    then OptionName.valued ValueOption.seconds
    else if text_equal arg (codes "--output")
    then OptionName.valued ValueOption.output
    else OptionName.unknown

abbrev pub set_help : ParserState → ParserState
set_help s = record s { options = record s.options { show_help = true }; saw_help = true }

abbrev pub set_seconds : ParserState → ℕ → ParserState
set_seconds s value = record s {
  options = record s.options { seconds = value };
  saw_seconds = true;
}

abbrev pub set_output : ParserState → Text → ParserState
set_output s value = record s {
  options = record s.options { output_path = some value };
  saw_output = true;
}

abbrev pub saw : ValueOption → ParserState → Bool
saw ValueOption.seconds s = s.saw_seconds
saw ValueOption.output s = s.saw_output

-- The value is taken, unless it is not a positive integer.
unfoldable pub set_value : ValueOption → ParserState → Text → Option ParserState
set_value ValueOption.output s value = some (set_output s value)
set_value ValueOption.seconds s value = elim (positive_integer value) [
  | none ↦ none
  | some count ↦ some (set_seconds s count)
]

unfoldable pub parse_loop :
    Option ValueOption → ParserState → List Text → Burnout3PacingProbeOptionsResult
parse_loop (some option) s [] = fail Error.missing_value
parse_loop (some option) s (value ∷ rest) = elim (is_option value) [
  | true ↦ fail Error.missing_value
  | false ↦ elim (set_value option s value) [
    | none ↦ fail Error.invalid_seconds
    | some next ↦ parse_loop none next rest
  ]
]
parse_loop none s [] = parsed s.options
parse_loop none s (arg ∷ rest) = elim (name_of arg) [
  | OptionName.help ↦ elim s.saw_help [
    | true ↦ fail Error.duplicate_option
    | false ↦ parse_loop none (set_help s) rest
  ]
  | OptionName.valued option ↦ elim (saw option s) [
    | true ↦ fail Error.duplicate_option
    | false ↦ parse_loop (some option) s rest
  ]
  | OptionName.unknown ↦ fail Error.unknown_option
]

abbrev pub defaults : Burnout3PacingProbeOptions
defaults = record { seconds = 60; output_path = none; show_help = false }

abbrev pub parser_start : ParserState
parser_start = record {
  options = defaults;
  saw_seconds = false;
  saw_output = false;
  saw_help = false;
}

unfoldable pub parse_burnout3_pacing_probe_options : List Text → Burnout3PacingProbeOptionsResult
parse_burnout3_pacing_probe_options args = parse_loop none parser_start args
