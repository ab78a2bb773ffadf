-- ===== src/CommandLine/Settings.antt =====
-- What the arguments mean to `main`.
use mpegts_reader.Common.{
  ℕ, ◌≡◌, ◌≢◌, ◌<◌, ◌==◌, ◌||◌, refl, ap, ◌∙◌, if◌then◌else◌, List, [], ◌∷◌, length, All, Option,
  none, some, arith,
}
use mpegts_reader.Common.Outcome.{done, ◌>>=◌}
use mpegts_reader.Stream.{strcpy}
use mpegts_reader.CommandLine.{
  argb_size, no_options, Options, is_i, is_o, take_value, take_arg, parse_args,
}

-- An option with its value, `-l value`.
pub record Setting : Type 0 where
  pub letter : ℕ
  pub value : List ℕ

abbrev pub args_of : List Setting → List (List ℕ)
args_of [] = []
args_of (s ∷ ss) = (b'-' ∷ s.letter ∷ []) ∷ s.value ∷ args_of ss

-- The value of the last setting with one of two letters.
abbrev pub last_of : ℕ → ℕ → List Setting → Option (List ℕ) → Option (List ℕ)
last_of small capital [] last = last
last_of small capital (s ∷ ss) last =
    last_of small capital ss
      (if s.letter == small || s.letter == capital then some s.value else last)

-- "3.ts"
abbrev pub default_input : List ℕ
default_input = b'3' ∷ b'.' ∷ b't' ∷ b's' ∷ []

-- A value that fits the buffer and does not look like an option.
abbrev pub StartsPlain : List ℕ → Type 0
StartsPlain [] = Unit
StartsPlain (c ∷ cs) = c ≢ b'-'

pub record IsSetting (s : Setting) : Type 0 where
  pub plain : StartsPlain s.value
  pub short : length s.value < 255

take_arg-value :
    (value : List ℕ) (options : Options)
    → StartsPlain value
    → take_arg value options ≡ take_value value options
unfolding take_arg
take_arg-value [] options h = refl
take_arg-value (c ∷ cs) options h = ground (arith, h)

strcpy-short : (value : List ℕ) → length value < 255 → strcpy argb_size value ≡ done value
strcpy-short value h = ground (arith, h)

-- A plain value is what the letter in force makes of it.
parse_args-value :
    (value : List ℕ) (args : List (List ℕ)) (options : Options)
    → StartsPlain value
    → length value < 255
    → parse_args (value ∷ args) options ≡ parse_args args (take_value value options)
unfolding parse_args
parse_args-value value args options p h =
    ap (λ o. o >>= (λ argb. parse_args args (take_arg argb options))) (strcpy-short value h)
    ∙ ap (parse_args args) (take_arg-value value options p)

output_path-take_value :
    (value : List ℕ) (options : Options)
    → (take_value value options).output_path
      ≡ (if is_o options.ctx then some value else options.output_path)
unfolding take_value
output_path-take_value value options = ground (arith)

input_path-take_value :
    (value : List ℕ) (options : Options)
    → some (take_value value options).input_path
      ≡ (if is_i options.ctx then some value else some options.input_path)
unfolding take_value
input_path-take_value value options = ground (arith)

-- The options after such arguments.
after_settings : List Setting → Options → Options
after_settings [] options = options
after_settings (s ∷ ss) options =
    after_settings ss (take_value s.value (record options { ctx = s.letter }))

parse_args-after_settings :
    (ss : List Setting) (options : Options)
    → All IsSetting ss
    → parse_args (args_of ss) options ≡ done (after_settings ss options)
unfolding parse_args after_settings
parse_args-after_settings [] options h = refl
parse_args-after_settings (s ∷ ss) options (h, hs) =
    parse_args-value s.value (args_of ss) (record options { ctx = s.letter }) h.plain h.short
    ∙ parse_args-after_settings ss (take_value s.value (record options { ctx = s.letter })) hs

output_path-after_settings :
    (ss : List Setting) (options : Options)
    → (after_settings ss options).output_path ≡ last_of b'o' b'O' ss options.output_path
unfolding after_settings
output_path-after_settings [] options = refl
output_path-after_settings (s ∷ ss) options =
    let named = record options { ctx = s.letter } in
    output_path-after_settings ss (take_value s.value named)
    ∙ ap (last_of b'o' b'O' ss) (output_path-take_value s.value named)

input_path-after_settings :
    (ss : List Setting) (options : Options)
    → some (after_settings ss options).input_path ≡ last_of b'i' b'I' ss (some options.input_path)
unfolding after_settings
input_path-after_settings [] options = refl
input_path-after_settings (s ∷ ss) options =
    let named = record options { ctx = s.letter } in
    input_path-after_settings ss (take_value s.value named)
    ∙ ap (last_of b'i' b'I' ss) (input_path-take_value s.value named)

-- Of a program name and settings, all short and the name and the values not starting with a dash, `main`
-- takes for the output path the value of the last setting whose letter is o or O, and for the input path
-- that of the last one whose letter is i or I; without one there is no output path, and the input path
-- is "3.ts".
pub parse_args-args_of :
    (program : List ℕ) (ss : List Setting)
    → StartsPlain program
    → length program < 255
    → All IsSetting ss
    → (parsed : Options) × (parse_args (program ∷ args_of ss) no_options ≡ done parsed)
      × (parsed.output_path ≡ last_of b'o' b'O' ss none)
      × (some parsed.input_path ≡ last_of b'i' b'I' ss (some default_input))
unfolding take_value
parse_args-args_of program ss p h hs = (
  after_settings ss no_options,
  parse_args-value program (args_of ss) no_options p h ∙ parse_args-after_settings ss no_options hs,
  output_path-after_settings ss no_options,
  input_path-after_settings ss no_options,
)
