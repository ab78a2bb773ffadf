-- ===== src/CommandLine.antt =====
-- main.c: the arguments of the program, and the loop in which it seeks.
pub mod Settings
pub mod Seeks
use mpegts_reader.Common.{
  ℕ, zero, suc, ◌+◌, Bool, true, false, ◌==◌, ◌||◌, ltb, if◌then◌else◌, List, [], ◌∷◌, length,
  Option, none, some,
}
use mpegts_reader.Common.Integers.{ℤ, pos, negsuc}
use mpegts_reader.Common.Outcome.{Outcome, done, fault, ◌>>=◌}
use mpegts_reader.Stream.{strcpy}
use mpegts_reader.Player.{
  Player, Act, single, returns, waits, undefined, gst_player_new, gst_player_seek,
}
use mpegts_reader.Player.Play.{Request, gst_player_play}
use mpegts_reader.Player.Calls.{Call}

-- sizeof(argb)
abbrev pub argb_size : ℕ
argb_size = 255

-- `output_path`, `input_path` and `ctx`; a path is the bytes in front of its NUL.
pub record Options : Type 0 where
  pub output_path : Option (List ℕ)
  pub input_path : List ℕ
  pub ctx : ℕ

-- Their first values: NULL, "3.ts" and 0.
abbrev pub no_options : Options
no_options = record { output_path = none; input_path = 51 ∷ 46 ∷ 116 ∷ 115 ∷ []; ctx = 0 }

-- The letters of the two options.
abbrev pub is_i : ℕ → Bool
is_i c = c == b'i' || c == b'I'

abbrev pub is_o : ℕ → Bool
is_o c = c == b'o' || c == b'O'

-- The switch on `ctx`.
unfoldable pub take_value : List ℕ → Options → Options
take_value arg options =
    if is_i options.ctx
    then record options { input_path = arg }
    else if is_o options.ctx
    then record options { output_path = some arg }
    else options

-- `token[1]`: the byte behind the dash, or the NUL.
abbrev pub letter_of : List ℕ → ℕ
letter_of [] = 0
letter_of (c ∷ cs) = c

-- The body of the loop behind the `strcpy`: an argument is an option if its first byte is a dash.
unfoldable pub take_arg : List ℕ → Options → Options
unfolding take_value
take_arg [] options = take_value [] options
take_arg (c ∷ cs) options =
    if c == b'-' then record options { ctx = letter_of cs } else take_value (c ∷ cs) options

-- The loop over `argv`.
unfoldable pub parse_args : List (List ℕ) → Options → Outcome Options
unfolding take_arg
parse_args [] options = done options
parse_args (arg ∷ args) options = do
  argb ← strcpy argb_size arg
  parse_args args (take_arg argb options)

-- How the loop of `main` stands after some rounds: it goes on, ends by its condition, or by `exit(-1)`,
-- or a call in it does not return.
pub data Seeking : Type 0 where
  goes_on leaves exits hangs : Seeking

abbrev pub after_seek : Act (Player × (List Call × ℤ)) → (Player → Seeking) → Seeking
after_seek (returns (player, (calls, pos zero))) rest = rest player
after_seek (returns (player, (calls, pos (suc n)))) rest = exits
after_seek (returns (player, (calls, negsuc n))) rest = exits
after_seek waits rest = hangs
after_seek undefined rest = hangs

-- The loop `while (c)`, `rounds` times at most; in round `k` the other threads make `meanwhile k` of the
-- player during the sleep, and `sought k` is what GStreamer answers.
unfoldable pub seek_loop : ℕ → ℕ → (ℕ → Player → Player) → (ℕ → Bool) → ℕ → ℤ → Player → Seeking
unfolding gst_player_seek
seek_loop zero c meanwhile sought k play_id player = goes_on
seek_loop (suc rounds) c meanwhile sought k play_id player =
    if c == 0
    then leaves
    else after_seek (gst_player_seek (sought k) (meanwhile k player) play_id (pos 30014))
        (seek_loop rounds c meanwhile sought (k + 1) play_id)

-- The path of the playlist that is played, whatever the arguments are.
abbrev pub played_uri : List ℕ
played_uri =
    102 ∷ 105 ∷ 108 ∷ 101 ∷ 58 ∷ 47 ∷ 47 ∷ 47 ∷ 104 ∷ 111 ∷ 109 ∷ 101 ∷ 47 ∷ 108 ∷ 117 ∷ 99 ∷ 105
    ∷ 102 ∷ 101 ∷ 114 ∷ 47 ∷ 109 ∷ 121 ∷ 95 ∷ 119 ∷ 111 ∷ 114 ∷ 107 ∷ 47 ∷ 109 ∷ 112 ∷ 101 ∷ 103
    ∷ 116 ∷ 115 ∷ 45 ∷ 114 ∷ 101 ∷ 97 ∷ 100 ∷ 101 ∷ 114 ∷ 47 ∷ 109 ∷ 101 ∷ 108 ∷ 111 ∷ 110 ∷ 47
    ∷ 112 ∷ 108 ∷ 97 ∷ 121 ∷ 108 ∷ 105 ∷ 115 ∷ 116 ∷ 46 ∷ 109 ∷ 51 ∷ 117 ∷ 56 ∷ []

-- `gst_player_play` of that path; `callback` is the address of `player_callback`.
abbrev pub main_request : ℕ → Request
main_request callback = record {
  uri = played_uri;
  callback = callback;
  arg = 0;
  play_type = single;
}

-- `main` behind the play: the calls of it, the id that it has got, and what follows on the id.
abbrev pub after_play :
    Act (Player × (List Call × ℤ)) → (ℤ → Player → Seeking) → Act (List Call × ℤ × Seeking)
after_play (returns (player, (calls, play_id))) rest = returns (calls, play_id, rest play_id player)
after_play waits rest = waits
after_play undefined rest = undefined

-- `main`, for allocations that succeed: the path that `remove` gets, if it is called, the play, and how the
-- loop stands after `rounds`. `handler` is the address of `handle_play_task`.
unfoldable pub main :
    ℕ
    → ℕ
    → ℕ
    → (ℕ → Player → Player)
    → (ℕ → Bool)
    → ℕ
    → List (List ℕ)
    → Outcome (Option (List ℕ) × Act (List Call × ℤ × Seeking))
unfolding parse_args seek_loop gst_player_new gst_player_play
main handler callback pipeline meanwhile sought rounds argv = do
  options ← parse_args argv no_options
  done (
    options.output_path,
    after_play (gst_player_play pipeline (gst_player_new handler) (main_request callback))
        (seek_loop rounds 10 meanwhile sought 0),
  )
