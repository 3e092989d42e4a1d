-- ===== src/Tools/AnalyzeOptions.antt =====
-- src/tools/burnout3_analyze_options.cpp: the command line of the analysis tool.
-- The flags are fields beside the options. Where the source takes the next argument as a value, the
-- loop goes on with an option that waits for it.
mod Types
pub mod Described
pub mod Complete
pub mod Asked
pub mod Reads
pub use Types.{
  Burnout3AnalyzeOptionError, Burnout3AnalyzeOptions, Burnout3AnalyzeOptionsResult, ParserState,
  OptionName, ValueOption,
}
use burnout_3_recompiled.Common.{
  ℕ, Bool, true, false, Option, some, none, List, [], ◌∷◌, ◌||◌, if◌then◌else◌, Text, codes,
  text_equal,
}
use burnout_3_recompiled.Tools.Arguments.{is_option, positive_integer}
use Types.{Burnout3AnalyzeOptionError as Error}
use Types.Burnout3AnalyzeOptionsResult.{parsed, fail}

unfoldable pub name_of : Text → OptionName
unfolding codes
name_of arg =
    if text_equal arg (codes "--help")
    then OptionName.help
    else if text_equal arg (codes "--elf")
    then OptionName.valued ValueOption.elf
    else if text_equal arg (codes "--output")
    then OptionName.valued ValueOption.output
    else if text_equal arg (codes "--max-blocks")
    then OptionName.valued ValueOption.max_blocks
    else if text_equal arg (codes "--follow-direct-calls")
    then OptionName.follow_direct_calls
    else OptionName.unknown

abbrev pub set_help : ParserState → ParserState
set_help s = record s { options = record s.options { show_help = true } }

abbrev pub set_elf : ParserState → Text → ParserState
set_elf s value = record s { options = record s.options { elf_path = value }; saw_elf = true }

abbrev pub set_output : ParserState → Text → ParserState
set_output s value = record s {
  options = record s.options { output_path = some value };
  saw_output = true;
}

abbrev pub set_max_blocks : ParserState → ℕ → ParserState
set_max_blocks s value = record s {
  options = record s.options { max_blocks = value };
  saw_max_blocks = true;
}

abbrev pub set_follow_direct_calls : ParserState → ParserState
set_follow_direct_calls s = record s {
  options = record s.options { follow_direct_calls = true };
  saw_follow_direct_calls = true;
}

-- After the loop.
abbrev pub finish : ParserState → Burnout3AnalyzeOptionsResult
finish s =
    if s.options.show_help || s.saw_elf then parsed s.options else fail Error.missing_elf_path

abbrev pub saw : ValueOption → ParserState → Bool
saw ValueOption.elf s = s.saw_elf
saw ValueOption.output s = s.saw_output
saw ValueOption.max_blocks s = s.saw_max_blocks

-- The value is taken, unless it is not a positive integer.
unfoldable pub set_value : ValueOption → ParserState → Text → Option ParserState
set_value ValueOption.elf s value = some (set_elf s value)
set_value ValueOption.output s value = some (set_output s value)
set_value ValueOption.max_blocks s value = elim (positive_integer value) [
  | none ↦ none
  | some count ↦ some (set_max_blocks s count)
]

unfoldable pub parse_loop :
    Option ValueOption → ParserState → List Text → Burnout3AnalyzeOptionsResult
parse_loop (some option) s [] = fail Error.missing_value
parse_loop (some option) s (value ∷ rest) = elim (is_option value) [
  | true ↦ fail Error.missing_value
  | false ↦ elim (set_value option s value) [
    | none ↦ fail Error.invalid_max_blocks
    | some next ↦ parse_loop none next rest
  ]
]
parse_loop none s [] = finish s
parse_loop none s (arg ∷ rest) = elim (name_of arg) [
  | OptionName.help ↦ parse_loop none (set_help s) rest
  | OptionName.valued option ↦ elim (saw option s) [
    | true ↦ fail Error.duplicate_option
    | false ↦ parse_loop (some option) s rest
  ]
  | OptionName.follow_direct_calls ↦ elim s.saw_follow_direct_calls [
    | true ↦ fail Error.duplicate_option
    | false ↦ parse_loop none (set_follow_direct_calls s) rest
  ]
  | OptionName.unknown ↦ fail Error.unknown_option
]

abbrev pub defaults : Burnout3AnalyzeOptions
defaults = record {
  elf_path = [];
  output_path = none;
  max_blocks = 4096;
  follow_direct_calls = false;
  show_help = false;
}

abbrev pub parser_start : ParserState
parser_start = record {
  options = defaults;
  saw_elf = false;
  saw_output = false;
  saw_max_blocks = false;
  saw_follow_direct_calls = false;
}

unfoldable pub parse_burnout3_analyze_options : List Text → Burnout3AnalyzeOptionsResult
parse_burnout3_analyze_options args = parse_loop none parser_start args
