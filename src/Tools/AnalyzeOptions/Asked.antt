-- ===== src/Tools/AnalyzeOptions/Asked.antt =====
-- What a command line of the analysis tool asks for, as its usage describes it, without the parser.
use burnout_3_recompiled.Common.{
  ℕ, Bool, true, false, Option, some, none, List, [], ◌∷◌, ◌++◌, ◌≤◌, ◌≡◌, ◌≢◌, ◌⊎◌, All, Text,
  codes,
}
use burnout_3_recompiled.Tools.Arguments.{positive_integer}
use burnout_3_recompiled.Tools.Dashed.{IsDashed}
use burnout_3_recompiled.Tools.AnalyzeOptions.{
  Burnout3AnalyzeOptionError as Error, Burnout3AnalyzeOptionsResult, Burnout3AnalyzeOptions,
  ValueOption,
}
use burnout_3_recompiled.Tools.AnalyzeOptions.Described.{
  Setting, spell, elf_uses, output_uses, max_blocks_uses, follow_uses,
}

-- A value does not begin with two dashes, and a count is what its text says.
abbrev pub IsGiven : Setting → Type 0
IsGiven (Setting.elf path) = ¬ IsDashed path
IsGiven (Setting.output path) = ¬ IsDashed path
IsGiven (Setting.max_blocks text count) = ¬ IsDashed text × (positive_integer text ≡ some count)
IsGiven setting = Unit

-- What the settings give, or what was there before.
abbrev pub last_elf : List Setting → Text → Text
last_elf [] before = before
last_elf (Setting.elf path ∷ rest) before = last_elf rest path
last_elf (setting ∷ rest) before = last_elf rest before

abbrev pub last_output : List Setting → Option Text → Option Text
last_output [] before = before
last_output (Setting.output path ∷ rest) before = last_output rest (some path)
last_output (setting ∷ rest) before = last_output rest before

abbrev pub last_count : List Setting → ℕ → ℕ
last_count [] before = before
last_count (Setting.max_blocks text count ∷ rest) before = last_count rest count
last_count (setting ∷ rest) before = last_count rest before

abbrev pub has_help : List Setting → Bool → Bool
has_help [] before = before
has_help (Setting.help ∷ rest) before = has_help rest true
has_help (setting ∷ rest) before = has_help rest before

abbrev pub has_follow : List Setting → Bool → Bool
has_follow [] before = before
has_follow (Setting.follow_direct_calls ∷ rest) before = has_follow rest true
has_follow (setting ∷ rest) before = has_follow rest before

-- Does an option with a value occur?
abbrev pub has_value : ValueOption → List Setting → Bool → Bool
has_value option [] before = before
has_value ValueOption.elf (Setting.elf path ∷ rest) before = has_value ValueOption.elf rest true
has_value ValueOption.output (Setting.output path ∷ rest) before =
    has_value ValueOption.output rest true
has_value ValueOption.max_blocks (Setting.max_blocks text count ∷ rest) before =
    has_value ValueOption.max_blocks rest true
has_value option (setting ∷ rest) before = has_value option rest before

abbrev pub asked : List Setting → Burnout3AnalyzeOptions
asked settings = record {
  elf_path = last_elf settings [];
  output_path = last_output settings none;
  max_blocks = last_count settings 4096;
  follow_direct_calls = has_follow settings false;
  show_help = has_help settings false;
}

-- Each option but `--help` occurs once at most.
pub record OccurOnce (settings : List Setting) : Type 0 where
  pub one_elf : elf_uses settings ≤ 1
  pub one_output : output_uses settings ≤ 1
  pub one_max_blocks : max_blocks_uses settings ≤ 1
  pub one_follow : follow_uses settings ≤ 1

abbrev pub value_codes : ValueOption → Text
value_codes ValueOption.elf = codes "--elf"
value_codes ValueOption.output = codes "--output"
value_codes ValueOption.max_blocks = codes "--max-blocks"

abbrev pub IsUnknown : Text → Type 0
IsUnknown arg =
    All (λ (name : Text). arg ≢ name)
      (codes "--help"
        ∷ codes "--elf"
        ∷ codes "--output"
        ∷ codes "--max-blocks"
        ∷ codes "--follow-direct-calls"
        ∷ [])

-- What is wrong after some settings, with the error that names it.
pub data WrongAfter (settings : List Setting) : List Text → Error → Type 0 where
  unknown :
      {arg : Text} {rest : List Text}
      → IsUnknown arg
      → WrongAfter settings (arg ∷ rest) Error.unknown_option
  repeated :
      {rest : List Text}
      → (option : ValueOption) → has_value option settings false ≡ true
      → WrongAfter settings (value_codes option ∷ rest) Error.duplicate_option
  repeated_follow :
      {rest : List Text}
      → has_follow settings false ≡ true
      → WrongAfter settings (codes "--follow-direct-calls" ∷ rest) Error.duplicate_option
  no_more :
      (option : ValueOption)
      → has_value option settings false ≡ false
      → WrongAfter settings (value_codes option ∷ []) Error.missing_value
  no_value :
      {value : Text} {rest : List Text}
      → (option : ValueOption) → has_value option settings false ≡ false
      → IsDashed value
      → WrongAfter settings (value_codes option ∷ value ∷ rest) Error.missing_value
  no_count :
      {value : Text} {rest : List Text}
      → has_value ValueOption.max_blocks settings false ≡ false
      → ¬ IsDashed value
      → positive_integer value ≡ none
      → WrongAfter settings (codes "--max-blocks" ∷ value ∷ rest) Error.invalid_max_blocks

-- A command line with its result.
pub data Reads : List Text → Burnout3AnalyzeOptionsResult → Type 0 where
  whole :
      (settings : List Setting)
      → All IsGiven settings
      → OccurOnce settings
      → (has_help settings false ≡ true) ⊎ (has_value ValueOption.elf settings false ≡ true)
      → Reads (spell settings) (Burnout3AnalyzeOptionsResult.parsed (asked settings))
  no_file :
      (settings : List Setting)
      → All IsGiven settings
      → OccurOnce settings
      → has_help settings false ≡ false
      → has_value ValueOption.elf settings false ≡ false
      → Reads (spell settings) (Burnout3AnalyzeOptionsResult.fail Error.missing_elf_path)
  wrong :
      (settings : List Setting) {tail : List Text} {e : Error}
      → All IsGiven settings
      → OccurOnce settings
      → WrongAfter settings tail e
      → Reads (spell settings ++ tail) (Burnout3AnalyzeOptionsResult.fail e)
