-- ===== src/Tools/PacingProbeOptions/Asked.antt =====
-- What a command line of the pacing probe asks for, as its usage describes it, without the parser.
use burnout_3_recompiled.Common.{
  ℕ, Bool, true, false, Option, some, none, List, [], ◌∷◌, ◌++◌, ◌≤◌, ◌≡◌, ◌≢◌, All, Text, codes,
}
use burnout_3_recompiled.Tools.Arguments.{positive_integer}
use burnout_3_recompiled.Tools.Dashed.{IsDashed}
use burnout_3_recompiled.Tools.PacingProbeOptions.{
  Burnout3PacingProbeOptionError as Error, Burnout3PacingProbeOptionsResult,
  Burnout3PacingProbeOptions, ValueOption,
}
use burnout_3_recompiled.Tools.PacingProbeOptions.Described.{
  Setting, spell, output_uses, seconds_uses, help_uses,
}

-- A value does not begin with two dashes, and a count is what its text says.
abbrev pub IsGiven : Setting → Type 0
IsGiven (Setting.output path) = ¬ IsDashed path
IsGiven (Setting.seconds text count) = ¬ IsDashed text × (positive_integer text ≡ some count)
IsGiven setting = Unit

-- What the settings give, or what was there before.
abbrev pub last_output : List Setting → Option Text → Option Text
last_output [] before = before
last_output (Setting.output path ∷ rest) before = last_output rest (some path)
last_output (setting ∷ rest) before = last_output rest before

abbrev pub last_count : List Setting → ℕ → ℕ
last_count [] before = before
last_count (Setting.seconds text count ∷ rest) before = last_count rest count
last_count (setting ∷ rest) before = last_count rest before

abbrev pub has_help : List Setting → Bool → Bool
has_help [] before = before
has_help (Setting.help ∷ rest) before = has_help rest true
has_help (setting ∷ rest) before = has_help rest before

-- Does an option with a value occur?
abbrev pub has_value : ValueOption → List Setting → Bool → Bool
has_value option [] before = before
has_value ValueOption.output (Setting.output path ∷ rest) before =
    has_value ValueOption.output rest true
has_value ValueOption.seconds (Setting.seconds text count ∷ rest) before =
    has_value ValueOption.seconds rest true
has_value option (setting ∷ rest) before = has_value option rest before

abbrev pub asked : List Setting → Burnout3PacingProbeOptions
asked settings = record {
  seconds = last_count settings 60;
  output_path = last_output settings none;
  show_help = has_help settings false;
}

-- Each option occurs once at most.
pub record OccurOnce (settings : List Setting) : Type 0 where
  pub one_output : output_uses settings ≤ 1
  pub one_seconds : seconds_uses settings ≤ 1
  pub one_help : help_uses settings ≤ 1

abbrev pub value_codes : ValueOption → Text
value_codes ValueOption.output = codes "--output"
value_codes ValueOption.seconds = codes "--seconds"

abbrev pub IsUnknown : Text → Type 0
IsUnknown arg =
    All (λ (name : Text). arg ≢ name) (codes "--help" ∷ codes "--output" ∷ codes "--seconds" ∷ [])

-- What is wrong after some settings, with the error that names it.
pub data WrongAfter (settings : List Setting) : List Text → Error → Type 0 where
  unknown :
      {arg : Text} {rest : List Text}
      → IsUnknown arg
      → WrongAfter settings (arg ∷ rest) Error.unknown_option
  repeated :
      {rest : List Text}
      → (option : ValueOption) → has_value option settings false ≡ true
      → WrongAfter settings (value_codes option ∷ rest) Error.duplicate_option
  repeated_help :
      {rest : List Text}
      → has_help settings false ≡ true
      → WrongAfter settings (codes "--help" ∷ rest) Error.duplicate_option
  no_more :
      (option : ValueOption)
      → has_value option settings false ≡ false
      → WrongAfter settings (value_codes option ∷ []) Error.missing_value
  no_value :
      {value : Text} {rest : List Text}
      → (option : ValueOption) → has_value option settings false ≡ false
      → IsDashed value
      → WrongAfter settings (value_codes option ∷ value ∷ rest) Error.missing_value
  no_count :
      {value : Text} {rest : List Text}
      → has_value ValueOption.seconds settings false ≡ false
      → ¬ IsDashed value
      → positive_integer value ≡ none
      → WrongAfter settings (codes "--seconds" ∷ value ∷ rest) Error.invalid_seconds

-- A command line with its result.
pub data Reads : List Text → Burnout3PacingProbeOptionsResult → Type 0 where
  whole :
      (settings : List Setting)
      → All IsGiven settings
      → OccurOnce settings
      → Reads (spell settings) (Burnout3PacingProbeOptionsResult.parsed (asked settings))
  wrong :
      (settings : List Setting) {tail : List Text} {e : Error}
      → All IsGiven settings
      → OccurOnce settings
      → WrongAfter settings tail e
      → Reads (spell settings ++ tail) (Burnout3PacingProbeOptionsResult.fail e)
