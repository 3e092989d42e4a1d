-- ===== src/Tools/AnalyzeOptions/Complete.antt =====
-- The parser of the analysis tool's options reads every command line as it is described.
use burnout_3_recompiled.Common.{
  Bool, true, false, Option, some, none, List, [], ◌∷◌, ◌++◌, ◌+◌, ◌≤◌, ◌≡◌, ◌≢◌, ◌⊎◌, inl, inr,
  refl, sym, ap, subst, arith, Bool-cases, Option-cases, Text, codes, text_equal, text_equal-≡,
}
use mathlib.Core.List.{append_assoc}
use burnout_3_recompiled.Tools.Arguments.{is_option, positive_integer}
use burnout_3_recompiled.Tools.AnalyzeOptions.{
  Burnout3AnalyzeOptionError as Error, Burnout3AnalyzeOptionsResult, ParserState, OptionName,
  ValueOption, name_of, saw, set_value, set_help, set_elf, set_output, set_max_blocks,
  set_follow_direct_calls, parse_loop, parser_start, parse_burnout3_analyze_options,
}
use burnout_3_recompiled.Tools.AnalyzeOptions.Described.{
  Setting, spell_one, spell, IsSetting, apply, IsOnce, IsWrong, unknown, repeated, repeated_follow,
  no_more, no_value, no_count, Describes, whole, wrong, flag,
}

unfoldable pub name_codes : OptionName → Text
name_codes OptionName.help = codes "--help"
name_codes OptionName.follow_direct_calls = codes "--follow-direct-calls"
name_codes OptionName.unknown = []
name_codes (OptionName.valued ValueOption.elf) = codes "--elf"
name_codes (OptionName.valued ValueOption.output) = codes "--output"
name_codes (OptionName.valued ValueOption.max_blocks) = codes "--max-blocks"

Named : Text → OptionName → Type 0
Named arg name = (name ≡ OptionName.unknown) ⊎ (arg ≡ name_codes name)

name_of-Named : (arg : Text) → Named arg (name_of arg)
unfolding name_of name_codes Named
name_of-Named arg = elim (Bool-cases (text_equal arg (codes "--help"))) [
  | inl e ↦ rw (e, name_of) (inr (text_equal-≡ arg _ e))
  | inr n₁ ↦ elim (Bool-cases (text_equal arg (codes "--elf"))) [
    | inl e ↦ rw (n₁, name_of) (rw (e) (inr (text_equal-≡ arg _ e)))
    | inr n₂ ↦ elim (Bool-cases (text_equal arg (codes "--output"))) [
      | inl e ↦ rw (n₁, name_of) (rw (n₂) (rw (e) (inr (text_equal-≡ arg _ e))))
      | inr n₃ ↦ elim (Bool-cases (text_equal arg (codes "--max-blocks"))) [
        | inl e ↦ rw (n₁, name_of) (rw (n₂) (rw (n₃) (rw (e) (inr (text_equal-≡ arg _ e)))))
        | inr n₄ ↦ elim (Bool-cases (text_equal arg (codes "--follow-direct-calls"))) [
          | inl e ↦
              rw (n₁, name_of) (rw (n₂) (rw (n₃) (rw (n₄) (rw (e) (inr (text_equal-≡ arg _ e))))))
          | inr n₅ ↦ rw (n₁, name_of) (rw (n₂) (rw (n₃) (rw (n₄) (rw (n₅) (inl refl)))))
        ]
      ]
    ]
  ]
]

abbrev Unseen : Setting → ParserState → Type 0
Unseen Setting.help s = Unit
Unseen Setting.follow_direct_calls s = s.saw_follow_direct_calls ≡ false
Unseen (Setting.elf path) s = s.saw_elf ≡ false
Unseen (Setting.output path) s = s.saw_output ≡ false
Unseen (Setting.max_blocks text count) s = s.saw_max_blocks ≡ false

once :
    (x : Setting) (s : ParserState) (settings : List Setting)
    → Unseen x s
    → IsOnce (apply x s) settings
    → IsOnce s (x ∷ settings)
once Setting.help s settings u h = record {
  elf_once = h.elf_once;
  output_once = h.output_once;
  max_blocks_once = h.max_blocks_once;
  follow_once = h.follow_once;
}
once Setting.follow_direct_calls s settings u h = record {
  elf_once = h.elf_once;
  output_once = h.output_once;
  max_blocks_once = h.max_blocks_once;
  follow_once = ground (arith, u, h.follow_once);
}
once (Setting.elf path) s settings u h = record {
  elf_once = ground (arith, u, h.elf_once);
  output_once = h.output_once;
  max_blocks_once = h.max_blocks_once;
  follow_once = h.follow_once;
}
once (Setting.output path) s settings u h = record {
  elf_once = h.elf_once;
  output_once = ground (arith, u, h.output_once);
  max_blocks_once = h.max_blocks_once;
  follow_once = h.follow_once;
}
once (Setting.max_blocks text count) s settings u h = record {
  elf_once = h.elf_once;
  output_once = h.output_once;
  max_blocks_once = ground (arith, u, h.max_blocks_once);
  follow_once = h.follow_once;
}

-- One setting more in front.
set-Describes :
    (x : Setting) (s : ParserState) {rest : List Text} {r : Burnout3AnalyzeOptionsResult}
    → IsSetting x
    → Unseen x s
    → Describes (apply x s) rest r
    → Describes s (spell_one x ++ rest) r
set-Describes x s is u (whole settings all h) =
    whole (x ∷ settings) (is, all) (once x s settings u h)
set-Describes x s is u (wrong settings {tail = tail} {e = e} all h w) =
    subst (λ (args : List Text). Describes s args (Burnout3AnalyzeOptionsResult.fail e))
      (append_assoc (spell_one x) (spell settings) tail)
      (wrong (x ∷ settings) (is, all) (once x s settings u h) w)

flag-le : (b : Bool) → flag b + 0 ≤ 1
flag-le true = omega arith
flag-le false = omega arith

nothing-IsOnce : (s : ParserState) → IsOnce s []
nothing-IsOnce s = record {
  elf_once = flag-le s.saw_elf;
  output_once = flag-le s.saw_output;
  max_blocks_once = flag-le s.saw_max_blocks;
  follow_once = flag-le s.saw_follow_direct_calls;
}

fails-Describes :
    {s : ParserState} {args : List Text} {e : Error}
    → IsWrong s args e
    → Describes s args (Burnout3AnalyzeOptionsResult.fail e)
fails-Describes {s = s} w = wrong [] tt (nothing-IsOnce s) w

-- What is proved of the loop, with and without an option that waits for its value.
Goal : Option ValueOption → ParserState → List Text → Type 0
Goal none s args = Describes s args (parse_loop none s args)
Goal (some option) s args =
    (arg : Text)
    → name_of arg ≡ OptionName.valued option
    → saw option s ≡ false
    → Describes s (arg ∷ args) (parse_loop (some option) s args)

Name-cases :
    (n : OptionName)
    → (n ≡ OptionName.help)
      ⊎ ((n ≡ OptionName.follow_direct_calls)
          ⊎ ((n ≡ OptionName.unknown) ⊎ ((option : ValueOption) × (n ≡ OptionName.valued option))))
Name-cases OptionName.help = inl refl
Name-cases OptionName.follow_direct_calls = inr (inl refl)
Name-cases OptionName.unknown = inr (inr (inl refl))
Name-cases (OptionName.valued option) = inr (inr (inr (option, refl)))

-- An argument is the name that it is found to be.
pub named :
    (arg : Text) (n : OptionName) → name_of arg ≡ n → n ≢ OptionName.unknown → arg ≡ name_codes n
unfolding Named
named arg n e known = elim (subst (Named arg) e (name_of-Named arg)) [
  | inl is_unknown ↦ absurd (known is_unknown)
  | inr same ↦ same
]

set-as :
    (x : Setting) (s : ParserState) (arg : Text) (after rest : List Text)
    {r : Burnout3AnalyzeOptionsResult}
    → arg ∷ after ++ rest ≡ spell_one x ++ rest
    → IsSetting x
    → Unseen x s
    → Describes (apply x s) rest r
    → Describes s (arg ∷ after ++ rest) r
set-as x s arg after rest {r = r} e is u h =
    subst (λ (args : List Text). Describes s args r) (sym e) (set-Describes x s is u h)

value-Describes :
    (option : ValueOption) (s : ParserState) (arg value : Text) (rest : List Text)
    → name_of arg ≡ OptionName.valued option
    → saw option s ≡ false
    → is_option value ≡ false
    → ((t : ParserState) → Describes t rest (parse_loop none t rest))
    → Describes s (arg ∷ value ∷ rest) (parse_loop (some option) s (value ∷ rest))
unfolding parse_loop set_value name_codes
value-Describes ValueOption.elf s arg value rest n unseen plain later =
    rw (plain, parse_loop)
      (set-as (Setting.elf value) s arg (value ∷ []) rest
        (ap (λ a. a ∷ value ∷ rest) (named arg _ n (λ e. cc e))) plain unseen
        (later (set_elf s value)))
value-Describes ValueOption.output s arg value rest n unseen plain later =
    rw (plain, parse_loop)
      (set-as (Setting.output value) s arg (value ∷ []) rest
        (ap (λ a. a ∷ value ∷ rest) (named arg _ n (λ e. cc e))) plain unseen
        (later (set_output s value)))
value-Describes ValueOption.max_blocks s arg value rest n unseen plain later =
    elim (Option-cases (positive_integer value)) [
      | inl bad ↦
          rw (plain, parse_loop)
            (rw (bad, set_value) (fails-Describes (no_count n unseen plain bad)))
      | inr (count, good) ↦
          rw (plain, parse_loop)
            (rw (good, set_value)
              (set-as (Setting.max_blocks value count) s arg (value ∷ []) rest
                (ap (λ a. a ∷ value ∷ rest) (named arg _ n (λ e. cc e))) (plain, good) unseen
                (later (set_max_blocks s count))))
    ]

becomes :
    {s : ParserState} {args : List Text} {r t : Burnout3AnalyzeOptionsResult}
    → r ≡ t
    → Describes s args t
    → Describes s args r
becomes {s = s} {args = args} e h = subst (λ r. Describes s args r) (sym e) h

-- An option that was not seen is not refused.
branch_off :
    (b : Bool) {y : Burnout3AnalyzeOptionsResult}
    → b ≡ false
    → (elim b [ true ↦ Burnout3AnalyzeOptionsResult.fail Error.duplicate_option | false ↦ y ]) ≡ y
branch_off b e = rw e refl

parse_loop-Goal :
    (pending : Option ValueOption) (s : ParserState) (args : List Text) → Goal pending s args
unfolding Goal parse_loop name_codes
parse_loop-Goal none s [] = whole [] tt (nothing-IsOnce s)
parse_loop-Goal none s (arg ∷ rest) = elim (Name-cases (name_of arg)) [
  | inl is ↦
      rw (is, parse_loop)
        (set-as Setting.help s arg [] rest (ap (λ a. a ∷ rest) (named arg _ is (λ e. cc e))) tt tt
          (parse_loop-Goal none (set_help s) rest))
  | inr (inl is) ↦ elim (Bool-cases s.saw_follow_direct_calls) [
    | inl seen ↦
        let e : parse_loop none s (arg ∷ rest)
            ≡ Burnout3AnalyzeOptionsResult.fail Error.duplicate_option =
          rw (is, parse_loop) (rw (seen) refl) in
        becomes e (fails-Describes (repeated_follow is seen))
    | inr unseen ↦
        let e : parse_loop none s (arg ∷ rest) ≡ parse_loop none (set_follow_direct_calls s) rest =
          rw (is, parse_loop) (branch_off s.saw_follow_direct_calls unseen) in
        becomes e (
          set-as Setting.follow_direct_calls s arg [] rest
            (ap (λ a. a ∷ rest) (named arg _ is (λ e. cc e))) tt unseen
            (parse_loop-Goal none (set_follow_direct_calls s) rest))
  ]
  | inr (inr (inl is)) ↦ rw (is, parse_loop) (fails-Describes (unknown is))
  | inr (inr (inr (option, is))) ↦ elim (Bool-cases (saw option s)) [
    | inl seen ↦
        let e : parse_loop none s (arg ∷ rest)
            ≡ Burnout3AnalyzeOptionsResult.fail Error.duplicate_option =
          rw (is, parse_loop) (rw (seen) refl) in
        becomes e (fails-Describes (repeated is seen))
    | inr unseen ↦
        let e : parse_loop none s (arg ∷ rest) ≡ parse_loop (some option) s rest =
          rw (is, parse_loop) (branch_off (saw option s) unseen) in
        becomes e (parse_loop-Goal (some option) s rest arg is unseen)
  ]
]
parse_loop-Goal (some option) s [] = λ arg is unseen. fails-Describes (no_more is unseen)
parse_loop-Goal (some option) s (value ∷ rest) = λ arg is unseen.
    elim (Bool-cases (is_option value)) [
      | inl dashed ↦ rw (dashed, parse_loop) (fails-Describes (no_value is unseen dashed))
      | inr plain ↦
          value-Describes option s arg value rest is unseen plain (λ t. parse_loop-Goal none t rest)
    ]

-- Every command line either is a list of settings in which each option but `--help` occurs once at
-- most, and then the result has those settings in place of the defaults, or the error that neither
-- help nor a file was asked for; or it is such a list and then something wrong, and then the result
-- is the error that names what is wrong: an unknown or a repeated option, a missing value, or a count
-- of blocks that is not a positive integer.
pub parse_burnout3_analyze_options-Describes :
    (args : List Text) → Describes parser_start args (parse_burnout3_analyze_options args)
unfolding parse_burnout3_analyze_options Goal
parse_burnout3_analyze_options-Describes args = parse_loop-Goal none parser_start args
