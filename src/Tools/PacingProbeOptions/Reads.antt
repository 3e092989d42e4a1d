-- ===== src/Tools/PacingProbeOptions/Reads.antt =====
-- The parser of the pacing probe's options gives what a command line asks for.
use burnout_3_recompiled.Common.{
  false, List, [], ◌∷◌, ◌≡◌, refl, sym, ap, ◌∙◌, subst, arith, All, Text, codes,
}
use burnout_3_recompiled.Tools.Dashed.{is_option-IsDashed, not_is_option}
use burnout_3_recompiled.Tools.PacingProbeOptions.{
  Burnout3PacingProbeOptionError as Error, Burnout3PacingProbeOptionsResult, ParserState,
  OptionName, ValueOption, name_of, saw, parser_start, parse_burnout3_pacing_probe_options,
}
use burnout_3_recompiled.Tools.PacingProbeOptions.Described.{
  Setting, spell, IsSetting, apply_all, IsOnce, IsWrong, Describes,
}
use burnout_3_recompiled.Tools.PacingProbeOptions.Complete.{
  name_codes, named, parse_burnout3_pacing_probe_options-Describes,
}
use burnout_3_recompiled.Tools.PacingProbeOptions.Asked.{
  IsGiven, last_output, last_count, has_help, has_value, OccurOnce, value_codes, IsUnknown,
  WrongAfter, Reads,
}

-- The state of the loop that the settings give.
abbrev state_after : List Setting → ParserState → ParserState
state_after settings s = record {
  options = record {
    seconds = last_count settings s.options.seconds;
    output_path = last_output settings s.options.output_path;
    show_help = has_help settings s.options.show_help;
  };
  saw_seconds = has_value ValueOption.seconds settings s.saw_seconds;
  saw_output = has_value ValueOption.output settings s.saw_output;
  saw_help = has_help settings s.saw_help;
}

apply_all-state_after :
    (settings : List Setting) (s : ParserState) → apply_all settings s ≡ state_after settings s
apply_all-state_after [] s = refl
apply_all-state_after (Setting.help ∷ rest) s = apply_all-state_after rest _
apply_all-state_after (Setting.output path ∷ rest) s = apply_all-state_after rest _
apply_all-state_after (Setting.seconds text count ∷ rest) s = apply_all-state_after rest _

IsSetting-IsGiven : (settings : List Setting) → All IsSetting settings → All IsGiven settings
IsSetting-IsGiven [] h = tt
IsSetting-IsGiven (Setting.help ∷ rest) h = (tt, IsSetting-IsGiven rest h.1)
IsSetting-IsGiven (Setting.output path ∷ rest) h =
    (not_is_option path h.0, IsSetting-IsGiven rest h.1)
IsSetting-IsGiven (Setting.seconds text count ∷ rest) h =
    ((not_is_option text h.0.0, h.0.1), IsSetting-IsGiven rest h.1)

IsOnce-OccurOnce : (settings : List Setting) → IsOnce parser_start settings → OccurOnce settings
IsOnce-OccurOnce settings h = record {
  one_output = omega (arith, h.output_once);
  one_seconds = omega (arith, h.seconds_once);
  one_help = omega (arith, h.help_once);
}

name_of-IsUnknown : (arg : Text) → name_of arg ≡ OptionName.unknown → IsUnknown arg
unfolding name_of codes
name_of-IsUnknown arg h = (
  (λ e. cc (sym h ∙ ap name_of e)),
  ((λ e. cc (sym h ∙ ap name_of e)), ((λ e. cc (sym h ∙ ap name_of e)), tt)),
)

option_codes :
    (arg : Text) (option : ValueOption)
    → name_of arg ≡ OptionName.valued option
    → value_codes option ≡ arg
unfolding name_codes
option_codes arg ValueOption.output e = sym (named arg _ e (λ u. cc u))
option_codes arg ValueOption.seconds e = sym (named arg _ e (λ u. cc u))

saw-has_value :
    (settings : List Setting) (option : ValueOption)
    → saw option (apply_all settings parser_start) ≡ has_value option settings false
saw-has_value settings ValueOption.output =
    ap (λ (s : ParserState). s.saw_output) (apply_all-state_after settings parser_start)
saw-has_value settings ValueOption.seconds =
    ap (λ (s : ParserState). s.saw_seconds) (apply_all-state_after settings parser_start)

module _ (settings : List Setting) where
  -- The names of the options in place of what they are found to be.
  renamed :
      {arg name : Text} {rest : List Text} {e : Error}
      → name ≡ arg
      → WrongAfter settings (name ∷ rest) e
      → WrongAfter settings (arg ∷ rest) e
  renamed {rest = rest} {e = e} same h = subst (λ a. WrongAfter settings (a ∷ rest) e) same h

  IsWrong-WrongAfter :
      {tail : List Text} {e : Error}
      → IsWrong (apply_all settings parser_start) tail e
      → WrongAfter settings tail e
  unfolding name_codes
  IsWrong-WrongAfter (IsWrong.unknown {arg = arg} h) = WrongAfter.unknown (name_of-IsUnknown arg h)
  IsWrong-WrongAfter (IsWrong.repeated {arg = arg} {option = option} h seen) =
      renamed (option_codes arg option h)
        (WrongAfter.repeated option (sym (saw-has_value settings option) ∙ seen))
  IsWrong-WrongAfter (IsWrong.repeated_help {arg = arg} h seen) =
      renamed (sym (named arg _ h (λ u. cc u))) (
        WrongAfter.repeated_help (
          sym (ap (λ (s : ParserState). s.saw_help) (apply_all-state_after settings parser_start))
          ∙ seen))
  IsWrong-WrongAfter (IsWrong.no_more {arg = arg} {option = option} h unseen) =
      renamed (option_codes arg option h)
        (WrongAfter.no_more option (sym (saw-has_value settings option) ∙ unseen))
  IsWrong-WrongAfter
        (IsWrong.no_value {arg = arg} {value = value} {option = option} h unseen dashed) =
      renamed (option_codes arg option h) (
        WrongAfter.no_value option (sym (saw-has_value settings option) ∙ unseen)
          (is_option-IsDashed value dashed))
  IsWrong-WrongAfter (IsWrong.no_count {arg = arg} {value = value} h unseen plain bad) =
      renamed (option_codes arg ValueOption.seconds h) (
        WrongAfter.no_count (sym (saw-has_value settings ValueOption.seconds) ∙ unseen)
          (not_is_option value plain) bad)

Describes-Reads :
    {args : List Text} {r : Burnout3PacingProbeOptionsResult}
    → Describes parser_start args r
    → Reads args r
Describes-Reads (Describes.whole settings all once) =
    subst
      (λ (s : ParserState).
        Reads (spell settings) (Burnout3PacingProbeOptionsResult.parsed s.options))
      (sym (apply_all-state_after settings parser_start))
      (Reads.whole settings (IsSetting-IsGiven settings all) (IsOnce-OccurOnce settings once))
Describes-Reads (Describes.wrong settings all once w) =
    Reads.wrong settings (IsSetting-IsGiven settings all) (IsOnce-OccurOnce settings once)
      (IsWrong-WrongAfter settings w)

-- Every command line either is a list of settings in which each option occurs once at most, and then
-- the result has what the settings give and the defaults for the rest; or it is such a list and then
-- something wrong, and then the result is the error that names what is wrong: an unknown or a repeated
-- option, a missing value, or a number of seconds that is not a positive integer.
pub parse_burnout3_pacing_probe_options-Reads :
    (args : List Text) → Reads args (parse_burnout3_pacing_probe_options args)
parse_burnout3_pacing_probe_options-Reads args =
    Describes-Reads (parse_burnout3_pacing_probe_options-Describes args)
