-- ===== src/Tools/AnalyzeOptions/Described.antt =====
-- What a command line of the analysis tool says, read as a list of settings.
use burnout_3_recompiled.Common.{
  ℕ, Bool, true, false, some, none, List, [], ◌∷◌, ◌++◌, ◌+◌, ◌≤◌, ◌≡◌, if◌then◌else◌, All, Text,
  codes,
}
use burnout_3_recompiled.Tools.Arguments.{is_option, positive_integer}
use burnout_3_recompiled.Tools.AnalyzeOptions.{
  Burnout3AnalyzeOptionError as Error, Burnout3AnalyzeOptionsResult, ParserState, OptionName,
  ValueOption, name_of, saw, set_help, set_elf, set_output, set_max_blocks, set_follow_direct_calls,
  finish,
}

-- The settings that a command line can hold.
pub data Setting : Type 0 where
  help follow_direct_calls : Setting
  elf output : Text → Setting
  max_blocks : Text → ℕ → Setting

abbrev pub spell_one : Setting → List Text
spell_one Setting.help = codes "--help" ∷ []
spell_one Setting.follow_direct_calls = codes "--follow-direct-calls" ∷ []
spell_one (Setting.elf path) = codes "--elf" ∷ path ∷ []
spell_one (Setting.output path) = codes "--output" ∷ path ∷ []
spell_one (Setting.max_blocks text count) = codes "--max-blocks" ∷ text ∷ []

abbrev pub spell : List Setting → List Text
spell [] = []
spell (setting ∷ rest) = spell_one setting ++ spell rest

-- A value does not look like an option, and a count is what its text says.
abbrev pub IsSetting : Setting → Type 0
IsSetting Setting.help = Unit
IsSetting Setting.follow_direct_calls = Unit
IsSetting (Setting.elf path) = is_option path ≡ false
IsSetting (Setting.output path) = is_option path ≡ false
IsSetting (Setting.max_blocks text count) =
    (is_option text ≡ false) × (positive_integer text ≡ some count)

abbrev pub apply : Setting → ParserState → ParserState
apply Setting.help s = set_help s
apply Setting.follow_direct_calls s = set_follow_direct_calls s
apply (Setting.elf path) s = set_elf s path
apply (Setting.output path) s = set_output s path
apply (Setting.max_blocks text count) s = set_max_blocks s count

abbrev pub apply_all : List Setting → ParserState → ParserState
apply_all [] s = s
apply_all (setting ∷ rest) s = apply_all rest (apply setting s)

-- How often an option occurs.
abbrev pub elf_uses : List Setting → ℕ
elf_uses [] = 0
elf_uses (Setting.elf path ∷ rest) = elf_uses rest + 1
elf_uses (setting ∷ rest) = elf_uses rest

abbrev pub output_uses : List Setting → ℕ
output_uses [] = 0
output_uses (Setting.output path ∷ rest) = output_uses rest + 1
output_uses (setting ∷ rest) = output_uses rest

abbrev pub max_blocks_uses : List Setting → ℕ
max_blocks_uses [] = 0
max_blocks_uses (Setting.max_blocks text count ∷ rest) = max_blocks_uses rest + 1
max_blocks_uses (setting ∷ rest) = max_blocks_uses rest

abbrev pub follow_uses : List Setting → ℕ
follow_uses [] = 0
follow_uses (Setting.follow_direct_calls ∷ rest) = follow_uses rest + 1
follow_uses (setting ∷ rest) = follow_uses rest

abbrev pub flag : Bool → ℕ
flag b = if b then 1 else 0

-- Each option but `--help` occurs once at most, those that were seen before included.
pub record IsOnce (s : ParserState) (settings : List Setting) : Type 0 where
  pub elf_once : flag s.saw_elf + elf_uses settings ≤ 1
  pub output_once : flag s.saw_output + output_uses settings ≤ 1
  pub max_blocks_once : flag s.saw_max_blocks + max_blocks_uses settings ≤ 1
  pub follow_once : flag s.saw_follow_direct_calls + follow_uses settings ≤ 1

-- The ways in which the rest of a command line is wrong.
pub data IsWrong (s : ParserState) : List Text → Error → Type 0 where
  unknown :
      {arg : Text} {rest : List Text}
      → name_of arg ≡ OptionName.unknown
      → IsWrong s (arg ∷ rest) Error.unknown_option
  repeated :
      {arg : Text} {rest : List Text} {option : ValueOption}
      → name_of arg ≡ OptionName.valued option
      → saw option s ≡ true
      → IsWrong s (arg ∷ rest) Error.duplicate_option
  repeated_follow :
      {arg : Text} {rest : List Text}
      → name_of arg ≡ OptionName.follow_direct_calls
      → s.saw_follow_direct_calls ≡ true
      → IsWrong s (arg ∷ rest) Error.duplicate_option
  no_more :
      {arg : Text} {option : ValueOption}
      → name_of arg ≡ OptionName.valued option
      → saw option s ≡ false
      → IsWrong s (arg ∷ []) Error.missing_value
  no_value :
      {arg value : Text} {rest : List Text} {option : ValueOption}
      → name_of arg ≡ OptionName.valued option
      → saw option s ≡ false
      → is_option value ≡ true
      → IsWrong s (arg ∷ value ∷ rest) Error.missing_value
  no_count :
      {arg value : Text} {rest : List Text}
      → name_of arg ≡ OptionName.valued ValueOption.max_blocks
      → saw ValueOption.max_blocks s ≡ false
      → is_option value ≡ false
      → positive_integer value ≡ none
      → IsWrong s (arg ∷ value ∷ rest) Error.invalid_max_blocks

-- The whole command line is settings, or settings come before the first thing that is wrong.
pub data Describes (s : ParserState) : List Text → Burnout3AnalyzeOptionsResult → Type 0 where
  whole :
      (settings : List Setting)
      → All IsSetting settings
      → IsOnce s settings
      → Describes s (spell settings) (finish (apply_all settings s))
  wrong :
      (settings : List Setting) {tail : List Text} {e : Error}
      → All IsSetting settings
      → IsOnce s settings
      → IsWrong (apply_all settings s) tail e
      → Describes s (spell settings ++ tail) (Burnout3AnalyzeOptionsResult.fail e)
