-- ===== src/Tools/PacingProbeOptions/Complete.antt =====
-- The parser of the pacing probe's options reads every command line as it is described.
use burnout_3_recompiled.Common.{
  Bool, true, false, Option, some, none, List, [], ◌∷◌, ◌++◌, ◌+◌, ◌≤◌, ◌≡◌, ◌≢◌, ◌⊎◌, inl, inr,
  refl, sym, ap, subst, arith, Bool-cases, Option-cases, Text, codes, text_equal, text_equal-≡,
}
use mathlib.Core.List.{append_assoc}
use burnout_3_recompiled.Tools.Arguments.{is_option, positive_integer}
use burnout_3_recompiled.Tools.PacingProbeOptions.{
  Burnout3PacingProbeOptionError as Error, Burnout3PacingProbeOptionsResult, ParserState,
  OptionName, ValueOption, name_of, saw, set_value, set_help, set_output, set_seconds, parse_loop,
  parser_start, parse_burnout3_pacing_probe_options,
}
use burnout_3_recompiled.Tools.PacingProbeOptions.Described.{
  Setting, spell_one, spell, IsSetting, apply, IsOnce, IsWrong, unknown, repeated, repeated_help,
  no_more, no_value, no_count, Describes, whole, wrong, flag,
}

unfoldable pub name_codes : OptionName → Text
name_codes OptionName.help = codes "--help"
name_codes OptionName.unknown = []
name_codes (OptionName.valued ValueOption.output) = codes "--output"
name_codes (OptionName.valued ValueOption.seconds) = codes "--seconds"

Named : Text → OptionName → Type 0
Named arg name = (name ≡ OptionName.unknown) ⊎ (arg ≡ name_codes name)

name_of-Named : (arg : Text) → Named arg (name_of arg)
unfolding name_of name_codes Named
name_of-Named arg = elim (Bool-cases (text_equal arg (codes "--help"))) [
  | inl e ↦ rw (e, name_of) (inr (text_equal-≡ arg _ e))
  | inr n₁ ↦ elim (Bool-cases (text_equal arg (codes "--seconds"))) [
    | inl e ↦ rw (n₁, name_of) (rw (e) (inr (text_equal-≡ arg _ e)))
    | inr n₂ ↦ elim (Bool-cases (text_equal arg (codes "--output"))) [
      | inl e ↦ rw (n₁, name_of) (rw (n₂) (rw (e) (inr (text_equal-≡ arg _ e))))
      | inr n₃ ↦ rw (n₁, name_of) (rw (n₂) (rw (n₃) (inl refl)))
    ]
  ]
]

abbrev Unseen : Setting → ParserState → Type 0
Unseen Setting.help s = s.saw_help ≡ false
Unseen (Setting.output path) s = s.saw_output ≡ false
Unseen (Setting.seconds text count) s = s.saw_seconds ≡ false

once :
    (x : Setting) (s : ParserState) (settings : List Setting)
    → Unseen x s
    → IsOnce (apply x s) settings
    → IsOnce s (x ∷ settings)
once Setting.help s settings u h = record {
  output_once = h.output_once;
  seconds_once = h.seconds_once;
  help_once = ground (arith, u, h.help_once);
}
once (Setting.output path) s settings u h = record {
  output_once = ground (arith, u, h.output_once);
  seconds_once = h.seconds_once;
  help_once = h.help_once;
}
once (Setting.seconds text count) s settings u h = record {
  output_once = h.output_once;
  seconds_once = ground (arith, u, h.seconds_once);
  help_once = h.help_once;
}

-- One setting more in front.
set-Describes :
    (x : Setting) (s : ParserState) {rest : List Text} {r : Burnout3PacingProbeOptionsResult}
    → IsSetting x
    → Unseen x s
    → Describes (apply x s) rest r
    → Describes s (spell_one x ++ rest) r
set-Describes x s is u (whole settings all h) =
    whole (x ∷ settings) (is, all) (once x s settings u h)
set-Describes x s is u (wrong settings {tail = tail} {e = e} all h w) =
    subst (λ (args : List Text). Describes s args (Burnout3PacingProbeOptionsResult.fail e))
      (append_assoc (spell_one x) (spell settings) tail)
      (wrong (x ∷ settings) (is, all) (once x s settings u h) w)

flag-le : (b : Bool) → flag b + 0 ≤ 1
flag-le true = omega arith
flag-le false = omega arith

nothing-IsOnce : (s : ParserState) → IsOnce s []
nothing-IsOnce s = record {
  output_once = flag-le s.saw_output;
  seconds_once = flag-le s.saw_seconds;
  help_once = flag-le s.saw_help;
}

fails-Describes :
    {s : ParserState} {args : List Text} {e : Error}
    → IsWrong s args e
    → Describes s args (Burnout3PacingProbeOptionsResult.fail e)
fails-Describes {s = s} w = wrong [] tt (nothing-IsOnce s) w

-- What is proved of the loop, with and without an option that waits for its value.
Goal : Option ValueOption → ParserState → List Text → Type 0
Goal none s args = Describes s args (parse_loop none s args)
Goal (some option) s args =
    (arg : Text)
    → name_of arg ≡ OptionName.valued option
    → saw option s ≡ false
    → Describes s (arg ∷ args) (parse_loop (some option) s args)

Name-cases :
    (n : OptionName)
    → (n ≡ OptionName.help)
      ⊎ ((n ≡ OptionName.unknown) ⊎ ((option : ValueOption) × (n ≡ OptionName.valued option)))
Name-cases OptionName.help = inl refl
Name-cases OptionName.unknown = inr (inl refl)
Name-cases (OptionName.valued option) = inr (inr (option, refl))

-- An argument is the name that it is found to be.
pub named :
    (arg : Text) (n : OptionName) → name_of arg ≡ n → n ≢ OptionName.unknown → arg ≡ name_codes n
unfolding Named
named arg n e known = elim (subst (Named arg) e (name_of-Named arg)) [
  | inl is_unknown ↦ absurd (known is_unknown)
  | inr same ↦ same
]

set-as :
    (x : Setting) (s : ParserState) (arg : Text) (after rest : List Text)
    {r : Burnout3PacingProbeOptionsResult}
    → arg ∷ after ++ rest ≡ spell_one x ++ rest
    → IsSetting x
    → Unseen x s
    → Describes (apply x s) rest r
    → Describes s (arg ∷ after ++ rest) r
set-as x s arg after rest {r = r} e is u h =
    subst (λ (args : List Text). Describes s args r) (sym e) (set-Describes x s is u h)

value-Describes :
    (option : ValueOption) (s : ParserState) (arg value : Text) (rest : List Text)
    → name_of arg ≡ OptionName.valued option
    → saw option s ≡ false
    → is_option value ≡ false
    → ((t : ParserState) → Describes t rest (parse_loop none t rest))
    → Describes s (arg ∷ value ∷ rest) (parse_loop (some option) s (value ∷ rest))
unfolding parse_loop set_value name_codes
value-Describes ValueOption.output s arg value rest n unseen plain later =
    rw (plain, parse_loop)
      (set-as (Setting.output value) s arg (value ∷ []) rest
        (ap (λ a. a ∷ value ∷ rest) (named arg _ n (λ e. cc e))) plain unseen
        (later (set_output s value)))
value-Describes ValueOption.seconds s arg value rest n unseen plain later =
    elim (Option-cases (positive_integer value)) [
      | inl bad ↦
          rw (plain, parse_loop)
            (rw (bad, set_value) (fails-Describes (no_count n unseen plain bad)))
      | inr (count, good) ↦
          rw (plain, parse_loop)
            (rw (good, set_value)
              (set-as (Setting.seconds value count) s arg (value ∷ []) rest
                (ap (λ a. a ∷ value ∷ rest) (named arg _ n (λ e. cc e))) (plain, good) unseen
                (later (set_seconds s count))))
    ]

becomes :
    {s : ParserState} {args : List Text} {r t : Burnout3PacingProbeOptionsResult}
    → r ≡ t
    → Describes s args t
    → Describes s args r
becomes {s = s} {args = args} e h = subst (λ r. Describes s args r) (sym e) h

-- An option that was not seen is not refused.
branch_off :
    (b : Bool) {y : Burnout3PacingProbeOptionsResult}
    → b ≡ false
    → (elim b [ true ↦ Burnout3PacingProbeOptionsResult.fail Error.duplicate_option | false ↦ y ])
      ≡ y
branch_off b e = rw e refl

parse_loop-Goal :
    (pending : Option ValueOption) (s : ParserState) (args : List Text) → Goal pending s args
unfolding Goal parse_loop name_codes
parse_loop-Goal none s [] = whole [] tt (nothing-IsOnce s)
parse_loop-Goal none s (arg ∷ rest) = elim (Name-cases (name_of arg)) [
  | inl is ↦ elim (Bool-cases s.saw_help) [
    | inl seen ↦
        let e : parse_loop none s (arg ∷ rest)
            ≡ Burnout3PacingProbeOptionsResult.fail Error.duplicate_option =
          rw (is, parse_loop) (rw (seen) refl) in
        becomes e (fails-Describes (repeated_help is seen))
    | inr unseen ↦
        let e : parse_loop none s (arg ∷ rest) ≡ parse_loop none (set_help s) rest =
          rw (is, parse_loop) (branch_off s.saw_help unseen) in
        becomes e (
          set-as Setting.help s arg [] rest (ap (λ a. a ∷ rest) (named arg _ is (λ e. cc e))) tt
            unseen (parse_loop-Goal none (set_help s) rest))
  ]
  | inr (inl is) ↦ rw (is, parse_loop) (fails-Describes (unknown is))
  | inr (inr (option, is)) ↦ elim (Bool-cases (saw option s)) [
    | inl seen ↦
        let e : parse_loop none s (arg ∷ rest)
            ≡ Burnout3PacingProbeOptionsResult.fail Error.duplicate_option =
          rw (is, parse_loop) (rw (seen) refl) in
        becomes e (fails-Describes (repeated is seen))
    | inr unseen ↦
        let e : parse_loop none s (arg ∷ rest) ≡ parse_loop (some option) s rest =
          rw (is, parse_loop) (branch_off (saw option s) unseen) in
        becomes e (parse_loop-Goal (some option) s rest arg is unseen)
  ]
]
parse_loop-Goal (some option) s [] = λ arg is unseen. fails-Describes (no_more is unseen)
parse_loop-Goal (some option) s (value ∷ rest) = λ arg is unseen.
    elim (Bool-cases (is_option value)) [
      | inl dashed ↦ rw (dashed, parse_loop) (fails-Describes (no_value is unseen dashed))
      | inr plain ↦
          value-Describes option s arg value rest is unseen plain (λ t. parse_loop-Goal none t rest)
    ]

-- Every command line either is a list of settings in which each option occurs once at most, and
-- then the result has those settings in place of the defaults; or it is such a list and then
-- something wrong, and then the result is the error that names what is wrong: an unknown or a
-- repeated option, a missing value, or a number of seconds that is not a positive integer.
pub parse_burnout3_pacing_probe_options-Describes :
    (args : List Text) → Describes parser_start args (parse_burnout3_pacing_probe_options args)
unfolding parse_burnout3_pacing_probe_options Goal
parse_burnout3_pacing_probe_options-Describes args = parse_loop-Goal none parser_start args
