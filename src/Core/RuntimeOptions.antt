-- ===== src/Core/RuntimeOptions.antt =====
-- src/core/runtime_options.h and runtime_options.cpp: the command line of the runtime. A wide string is
-- the list of its character codes.
-- Where the source takes the next argument as a value, the loop goes on with an option that waits
-- for it.
pub mod Described
use burnout_3_recompiled.Common.{
  Bool, true, false, Option, some, none, List, [], ◌∷◌, ◌++◌, if◌then◌else◌, Text, codes,
  text_equal,
}

pub record RuntimeOptions : Type 0 where
  pub debug : Bool
  pub verbose : Bool
  pub windowed : Bool
  pub fullscreen : Bool
  pub disable_audio : Bool
  pub frame_stats : Bool
  pub game_data : Text
  pub log_level : Text

pub record ParseResult : Type 0 where
  pub options : RuntimeOptions
  pub ok : Bool
  pub error : Text

-- The options without a value, and those with one.
pub data Switch : Type 0 where
  debug verbose windowed fullscreen disable_audio frame_stats : Switch

pub data ValueOption : Type 0 where
  game_data log_level : ValueOption

pub data OptionName : Type 0 where
  switched : Switch → OptionName
  valued : ValueOption → OptionName
  unknown : OptionName

unfoldable pub name_of : Text → OptionName
unfolding codes
name_of arg =
    if text_equal arg (codes "--debug")
    then OptionName.switched Switch.debug
    else if text_equal arg (codes "--verbose")
    then OptionName.switched Switch.verbose
    else if text_equal arg (codes "--windowed")
    then OptionName.switched Switch.windowed
    else if text_equal arg (codes "--fullscreen")
    then OptionName.switched Switch.fullscreen
    else if text_equal arg (codes "--disable-audio")
    then OptionName.switched Switch.disable_audio
    else if text_equal arg (codes "--frame-stats")
    then OptionName.switched Switch.frame_stats
    else if text_equal arg (codes "--game-data")
    then OptionName.valued ValueOption.game_data
    else if text_equal arg (codes "--log-level")
    then OptionName.valued ValueOption.log_level
    else OptionName.unknown

abbrev pub set_switch : Switch → RuntimeOptions → RuntimeOptions
set_switch Switch.debug o = record o { debug = true }
set_switch Switch.verbose o = record o { verbose = true }
set_switch Switch.windowed o = record o { windowed = true; fullscreen = false }
set_switch Switch.fullscreen o = record o { fullscreen = true; windowed = false }
set_switch Switch.disable_audio o = record o { disable_audio = true }
set_switch Switch.frame_stats o = record o { frame_stats = true }

abbrev pub set_value : ValueOption → Text → RuntimeOptions → RuntimeOptions
set_value ValueOption.game_data value o = record o { game_data = value }
set_value ValueOption.log_level value o = record o { log_level = value }

unfoldable pub requires_value : Text → Text
requires_value arg = arg ++ codes " requires a value"

unfoldable pub unknown_argument : Text → Text
unknown_argument arg = codes "Unknown argument: " ++ arg

-- The options after what was read, and how the loop ended.
abbrev pub failed : RuntimeOptions → Text → ParseResult
failed o error = record { options = o; ok = false; error = error }

-- An option waits with the argument that named it.
unfoldable pub parse_loop : Option (ValueOption × Text) → RuntimeOptions → List Text → ParseResult
parse_loop (some waiting) o [] = failed o (requires_value waiting.1)
parse_loop (some waiting) o (value ∷ rest) = parse_loop none (set_value waiting.0 value o) rest
parse_loop none o [] = record { options = o; ok = true; error = [] }
parse_loop none o (arg ∷ rest) = elim (name_of arg) [
  | OptionName.switched switch ↦ parse_loop none (set_switch switch o) rest
  | OptionName.valued option ↦ parse_loop (some (option, arg)) o rest
  | OptionName.unknown ↦ failed o (unknown_argument arg)
]

abbrev pub defaults : RuntimeOptions
defaults = record {
  debug = false;
  verbose = false;
  windowed = true;
  fullscreen = false;
  disable_audio = false;
  frame_stats = false;
  game_data = [];
  log_level = codes "info";
}

-- The loop begins at index 1: the first argument is the program's name.
unfoldable pub parse : List Text → ParseResult
parse [] = parse_loop none defaults []
parse (program ∷ args) = parse_loop none defaults args
