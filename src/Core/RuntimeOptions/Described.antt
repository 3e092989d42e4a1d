-- ===== src/Core/RuntimeOptions/Described.antt =====
-- What a command line of the runtime says, read as a list of settings, and that the parser reads it so.
use burnout_3_recompiled.Common.{
  Bool, true, false, ◌||◌, ◌≢◌, All, text_equal, text_equal-≢, if◌then◌else◌, not, Option, some,
  none, List, [], ◌∷◌, ◌++◌, ◌≡◌, ◌⊎◌, inl, inr, refl, sym, ap, ◌∙◌, Text, codes,
}
use mathlib.Core.List.{append-nil}
use burnout_3_recompiled.Core.RuntimeOptions.{
  RuntimeOptions, Switch, ValueOption, OptionName, name_of, set_switch, set_value, requires_value,
  unknown_argument, parse_loop, defaults, parse,
}

pub data Setting : Type 0 where
  switch : Switch → Setting
  value : ValueOption → Text → Setting

abbrev pub switch_codes : Switch → Text
switch_codes Switch.debug = codes "--debug"
switch_codes Switch.verbose = codes "--verbose"
switch_codes Switch.windowed = codes "--windowed"
switch_codes Switch.fullscreen = codes "--fullscreen"
switch_codes Switch.disable_audio = codes "--disable-audio"
switch_codes Switch.frame_stats = codes "--frame-stats"

abbrev pub value_codes : ValueOption → Text
value_codes ValueOption.game_data = codes "--game-data"
value_codes ValueOption.log_level = codes "--log-level"

abbrev pub spell : List Setting → List Text
spell [] = []
spell (Setting.switch s ∷ rest) = switch_codes s ∷ spell rest
spell (Setting.value option text ∷ rest) = value_codes option ∷ text ∷ spell rest

-- Whether a switch that is only ever turned on occurs, and the last of the values of an option.
abbrev pub mentions : Text → List Setting → Bool → Bool
mentions name [] before = before
mentions name (Setting.switch s ∷ rest) before =
    mentions name rest (text_equal name (switch_codes s) || before)
mentions name (Setting.value option text ∷ rest) before = mentions name rest before

abbrev pub last_value : Text → List Setting → Text → Text
last_value name [] before = before
last_value name (Setting.switch s ∷ rest) before = last_value name rest before
last_value name (Setting.value option text ∷ rest) before =
    last_value name rest (if text_equal name (value_codes option) then text else before)

-- The last of `--windowed` and `--fullscreen` counts.
abbrev pub in_window : List Setting → Bool → Bool
in_window [] before = before
in_window (Setting.switch Switch.windowed ∷ rest) before = in_window rest true
in_window (Setting.switch Switch.fullscreen ∷ rest) before = in_window rest false
in_window (setting ∷ rest) before = in_window rest before

-- The options that settings ask for, after those that were read before.
abbrev pub asked_after : List Setting → RuntimeOptions → RuntimeOptions
asked_after settings o = record {
  debug = mentions (codes "--debug") settings o.debug;
  verbose = mentions (codes "--verbose") settings o.verbose;
  windowed = in_window settings o.windowed;
  fullscreen = not (in_window settings (not o.fullscreen));
  disable_audio = mentions (codes "--disable-audio") settings o.disable_audio;
  frame_stats = mentions (codes "--frame-stats") settings o.frame_stats;
  game_data = last_value (codes "--game-data") settings o.game_data;
  log_level = last_value (codes "--log-level") settings o.log_level;
}

-- The options of a whole command line: a window, nothing else turned on, and the level `info`, unless
-- the settings ask for something else.
abbrev pub asked : List Setting → RuntimeOptions
asked settings = record {
  debug = mentions (codes "--debug") settings false;
  verbose = mentions (codes "--verbose") settings false;
  windowed = in_window settings true;
  fullscreen = not (in_window settings true);
  disable_audio = mentions (codes "--disable-audio") settings false;
  frame_stats = mentions (codes "--frame-stats") settings false;
  game_data = last_value (codes "--game-data") settings [];
  log_level = last_value (codes "--log-level") settings (codes "info");
}

abbrev apply_all : List Setting → RuntimeOptions → RuntimeOptions
apply_all [] o = o
apply_all (Setting.switch s ∷ rest) o = apply_all rest (set_switch s o)
apply_all (Setting.value option text ∷ rest) o = apply_all rest (set_value option text o)

not_twice : (b : Bool) → not (not b) ≡ b
not_twice true = refl
not_twice false = refl

-- The settings applied in turn give the options that are asked for.
apply_all-asked_after :
    (settings : List Setting) (o : RuntimeOptions) → apply_all settings o ≡ asked_after settings o
unfolding codes
apply_all-asked_after [] o = rw (not_twice o.fullscreen) refl
apply_all-asked_after (Setting.switch Switch.debug ∷ rest) o = apply_all-asked_after rest _
apply_all-asked_after (Setting.switch Switch.verbose ∷ rest) o = apply_all-asked_after rest _
apply_all-asked_after (Setting.switch Switch.windowed ∷ rest) o = apply_all-asked_after rest _
apply_all-asked_after (Setting.switch Switch.fullscreen ∷ rest) o = apply_all-asked_after rest _
apply_all-asked_after (Setting.switch Switch.disable_audio ∷ rest) o = apply_all-asked_after rest _
apply_all-asked_after (Setting.switch Switch.frame_stats ∷ rest) o = apply_all-asked_after rest _
apply_all-asked_after (Setting.value ValueOption.game_data text ∷ rest) o =
    apply_all-asked_after rest _
apply_all-asked_after (Setting.value ValueOption.log_level text ∷ rest) o =
    apply_all-asked_after rest _

apply_all-asked : (settings : List Setting) → apply_all settings defaults ≡ asked settings
unfolding codes
apply_all-asked settings = apply_all-asked_after settings defaults

-- The names of the options, and the arguments that are none of them.
abbrev pub option_names : List Text
option_names =
    codes "--debug"
    ∷ codes "--verbose"
    ∷ codes "--windowed"
    ∷ codes "--fullscreen"
    ∷ codes "--disable-audio"
    ∷ codes "--frame-stats"
    ∷ codes "--game-data"
    ∷ codes "--log-level"
    ∷ []

abbrev pub IsUnknown : Text → Type 0
IsUnknown arg = All (λ (name : Text). arg ≢ name) option_names

name_of-unknown : (arg : Text) → IsUnknown arg → name_of arg ≡ OptionName.unknown
unfolding name_of
name_of-unknown arg h =
    rw
      (
        text_equal-≢ arg _ h.0,
        text_equal-≢ arg _ h.1.0,
        text_equal-≢ arg _ h.1.1.0,
        text_equal-≢ arg _ h.1.1.1.0,
        text_equal-≢ arg _ h.1.1.1.1.0,
        text_equal-≢ arg _ h.1.1.1.1.1.0,
        text_equal-≢ arg _ h.1.1.1.1.1.1.0,
        text_equal-≢ arg _ h.1.1.1.1.1.1.1.0,
      )
      refl

name_of-switch : (s : Switch) → name_of (switch_codes s) ≡ OptionName.switched s
unfolding name_of codes
name_of-switch Switch.debug = refl
name_of-switch Switch.verbose = refl
name_of-switch Switch.windowed = refl
name_of-switch Switch.fullscreen = refl
name_of-switch Switch.disable_audio = refl
name_of-switch Switch.frame_stats = refl

name_of-value : (option : ValueOption) → name_of (value_codes option) ≡ OptionName.valued option
unfolding name_of codes
name_of-value ValueOption.game_data = refl
name_of-value ValueOption.log_level = refl

-- The settings at the front of a command line are applied, whatever comes after them.
parse_loop-spell :
    (settings : List Setting) (o : RuntimeOptions) (rest : List Text)
    → parse_loop none o (spell settings ++ rest) ≡ parse_loop none (apply_all settings o) rest
unfolding parse_loop
parse_loop-spell [] o rest = refl
parse_loop-spell (Setting.switch s ∷ more) o rest =
    rw (name_of-switch s, parse_loop) (parse_loop-spell more (set_switch s o) rest)
parse_loop-spell (Setting.value option text ∷ more) o rest =
    rw (name_of-value option, parse_loop) (parse_loop-spell more (set_value option text o) rest)

-- A list of settings, in any order and as often as they occur, is read as the options that it asks
-- for: what is turned on, the last value of an option and the last of `--windowed` and
-- `--fullscreen`, and the defaults for the rest. After such a list, an argument that is no option, or
-- an option whose value is missing, ends the reading with the options so far and a text that names it.
pub parse-spell :
    (program : Text) (settings : List Setting) (arg : Text) (rest : List Text)
    (option : ValueOption)
    → IsUnknown arg
    → (parse (program ∷ spell settings)
        ≡ record { options = asked settings; ok = true; error = [] })
      × (parse (program ∷ spell settings ++ arg ∷ rest) ≡ record {
        options = asked settings;
        ok = false;
        error = codes "Unknown argument: " ++ arg;
      })
      × (parse (program ∷ spell settings ++ value_codes option ∷ []) ≡ record {
        options = asked settings;
        ok = false;
        error = value_codes option ++ codes " requires a value";
      })
unfolding parse parse_loop requires_value unknown_argument
parse-spell program settings arg rest option is_unknown = rw (sym (apply_all-asked settings)) (
  ap (λ args. parse_loop none defaults args) (sym (append-nil (spell settings)))
      ∙ parse_loop-spell settings defaults [],
  parse_loop-spell settings defaults (arg ∷ rest)
      ∙ rw (name_of-unknown arg is_unknown, parse_loop) refl,
  parse_loop-spell settings defaults (value_codes option ∷ [])
      ∙ rw (name_of-value option, parse_loop) refl,
)

abbrev pub IsExclusive : RuntimeOptions → Type 0
IsExclusive o = o.windowed ≡ not o.fullscreen

set_switch-IsExclusive :
    (s : Switch) (o : RuntimeOptions) → IsExclusive o → IsExclusive (set_switch s o)
set_switch-IsExclusive Switch.windowed o h = refl
set_switch-IsExclusive Switch.fullscreen o h = refl
set_switch-IsExclusive _ o h = h

set_value-IsExclusive :
    (option : ValueOption) (text : Text) (o : RuntimeOptions)
    → IsExclusive o
    → IsExclusive (set_value option text o)
set_value-IsExclusive ValueOption.game_data text o h = h
set_value-IsExclusive ValueOption.log_level text o h = h

Name-cases :
    (n : OptionName)
    → (n ≡ OptionName.unknown)
      ⊎ (((s : Switch) × (n ≡ OptionName.switched s))
          ⊎ ((option : ValueOption) × (n ≡ OptionName.valued option)))
Name-cases OptionName.unknown = inl refl
Name-cases (OptionName.switched s) = inr (inl (s, refl))
Name-cases (OptionName.valued option) = inr (inr (option, refl))

parse_loop-IsExclusive :
    (waiting : Option (ValueOption × Text)) (o : RuntimeOptions) (args : List Text)
    → IsExclusive o
    → IsExclusive (parse_loop waiting o args).options
unfolding parse_loop
parse_loop-IsExclusive (some waiting) o [] h = h
parse_loop-IsExclusive (some waiting) o (text ∷ rest) h =
    parse_loop-IsExclusive none (set_value waiting.0 text o) rest
      (set_value-IsExclusive waiting.0 text o h)
parse_loop-IsExclusive none o [] h = h
parse_loop-IsExclusive none o (arg ∷ rest) h = elim (Name-cases (name_of arg)) [
  | inl e ↦ rw (e, parse_loop) h
  | inr (inl (s, e)) ↦
      rw (e, parse_loop)
        (parse_loop-IsExclusive none (set_switch s o) rest (set_switch-IsExclusive s o h))
  | inr (inr (option, e)) ↦
      rw (e, parse_loop) (parse_loop-IsExclusive (some (option, arg)) o rest h)
]

-- Whatever the command line, and whether it is read to its end or not, the options ask for a window
-- just when they do not ask for the full screen.
pub parse-IsExclusive : (args : List Text) → IsExclusive (parse args).options
unfolding parse
parse-IsExclusive [] = parse_loop-IsExclusive none defaults [] refl
parse-IsExclusive (program ∷ args) = parse_loop-IsExclusive none defaults args refl
