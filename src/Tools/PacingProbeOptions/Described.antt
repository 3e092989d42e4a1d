-- ===== src/Tools/PacingProbeOptions/Described.antt =====
-- What a command line of the pacing probe says, read as a list of settings.
use burnout_3_recompiled.Common.{
  ℕ, Bool, true, false, some, none, List, [], ◌∷◌, ◌++◌, ◌+◌, ◌≤◌, ◌≡◌, if◌then◌else◌, All, Text,
  codes,
}
use burnout_3_recompiled.Tools.Arguments.{is_option, positive_integer}
use burnout_3_recompiled.Tools.PacingProbeOptions.{
  Burnout3PacingProbeOptionError as Error, Burnout3PacingProbeOptionsResult, ParserState,
  OptionName, ValueOption, name_of, saw, set_help, set_output, set_seconds,
}

-- The settings that a command line can hold.
pub data Setting : Type 0 where
  help : Setting
  output : Text → Setting
  seconds : Text → ℕ → Setting

abbrev pub spell_one : Setting → List Text
spell_one Setting.help = codes "--help" ∷ []
spell_one (Setting.output path) = codes "--output" ∷ path ∷ []
spell_one (Setting.seconds text count) = codes "--seconds" ∷ text ∷ []

abbrev pub spell : List Setting → List Text
spell [] = []
spell (setting ∷ rest) = spell_one setting ++ spell rest

-- A value does not look like an option, and a count is what its text says.
abbrev pub IsSetting : Setting → Type 0
IsSetting Setting.help = Unit
IsSetting (Setting.output path) = is_option path ≡ false
IsSetting (Setting.seconds text count) =
    (is_option text ≡ false) × (positive_integer text ≡ some count)

abbrev pub apply : Setting → ParserState → ParserState
apply Setting.help s = set_help s
apply (Setting.output path) s = set_output s path
apply (Setting.seconds text count) s = set_seconds s count

abbrev pub apply_all : List Setting → ParserState → ParserState
apply_all [] s = s
apply_all (setting ∷ rest) s = apply_all rest (apply setting s)

-- How often an option occurs.
abbrev pub output_uses : List Setting → ℕ
output_uses [] = 0
output_uses (Setting.output path ∷ rest) = output_uses rest + 1
output_uses (setting ∷ rest) = output_uses rest

abbrev pub seconds_uses : List Setting → ℕ
seconds_uses [] = 0
seconds_uses (Setting.seconds text count ∷ rest) = seconds_uses rest + 1
seconds_uses (setting ∷ rest) = seconds_uses rest

abbrev pub help_uses : List Setting → ℕ
help_uses [] = 0
help_uses (Setting.help ∷ rest) = help_uses rest + 1
help_uses (setting ∷ rest) = help_uses rest

abbrev pub flag : Bool → ℕ
flag b = if b then 1 else 0

-- Each option occurs once at most, those that were seen before included.
pub record IsOnce (s : ParserState) (settings : List Setting) : Type 0 where
  pub output_once : flag s.saw_output + output_uses settings ≤ 1
  pub seconds_once : flag s.saw_seconds + seconds_uses settings ≤ 1
  pub help_once : flag s.saw_help + help_uses settings ≤ 1

-- The ways in which the rest of a command line is wrong.
pub data IsWrong (s : ParserState) : List Text → Error → Type 0 where
  unknown :
      {arg : Text} {rest : List Text}
      → name_of arg ≡ OptionName.unknown
      → IsWrong s (arg ∷ rest) Error.unknown_option
  repeated :
      {arg : Text} {rest : List Text} {option : ValueOption}
      → name_of arg ≡ OptionName.valued option
      → saw option s ≡ true
      → IsWrong s (arg ∷ rest) Error.duplicate_option
  repeated_help :
      {arg : Text} {rest : List Text}
      → name_of arg ≡ OptionName.help
      → s.saw_help ≡ true
      → IsWrong s (arg ∷ rest) Error.duplicate_option
  no_more :
      {arg : Text} {option : ValueOption}
      → name_of arg ≡ OptionName.valued option
      → saw option s ≡ false
      → IsWrong s (arg ∷ []) Error.missing_value
  no_value :
      {arg value : Text} {rest : List Text} {option : ValueOption}
      → name_of arg ≡ OptionName.valued option
      → saw option s ≡ false
      → is_option value ≡ true
      → IsWrong s (arg ∷ value ∷ rest) Error.missing_value
  no_count :
      {arg value : Text} {rest : List Text}
      → name_of arg ≡ OptionName.valued ValueOption.seconds
      → saw ValueOption.seconds s ≡ false
      → is_option value ≡ false
      → positive_integer value ≡ none
      → IsWrong s (arg ∷ value ∷ rest) Error.invalid_seconds

-- The whole command line is settings, or settings come before the first thing that is wrong.
pub data Describes (s : ParserState) : List Text → Burnout3PacingProbeOptionsResult → Type 0 where
  whole :
      (settings : List Setting)
      → All IsSetting settings
      → IsOnce s settings
      → Describes s
          (spell settings)
          (Burnout3PacingProbeOptionsResult.parsed (apply_all settings s).options)
  wrong :
      (settings : List Setting) {tail : List Text} {e : Error}
      → All IsSetting settings
      → IsOnce s settings
      → IsWrong (apply_all settings s) tail e
      → Describes s (spell settings ++ tail) (Burnout3PacingProbeOptionsResult.fail e)
