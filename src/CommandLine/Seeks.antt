-- ===== src/CommandLine/Seeks.antt =====
-- How long `main` seeks.
use Prim.Native.Char.{code}
use Prim.Native.String.{String, [], ◌∷◌}
use mpegts_reader.Common.{
  ℕ, zero, suc, ◌+◌, ◌≡◌, refl, ap, Bool, true, false, if◌then◌else◌, ◌&&◌, List, [], ◌∷◌,
}
use mpegts_reader.Common.Integers.{pos, negsuc}
use mpegts_reader.Common.Outcome.{done}
use mpegts_reader.Player.{Player, PlayTask, returns, seek_task, gst_player_new, gst_player_seek}
use mpegts_reader.ThreadPool.{ThreadPool, thread_pool_new}
use mpegts_reader.Player.Calls.{Call, parse_launch, element_seek}
use mpegts_reader.Player.Play.{gst_player_play}
use mpegts_reader.CommandLine.{
  Options, no_options, parse_args, Seeking, goes_on, exits, after_seek, seek_loop, main_request,
  main,
}

-- Two tasks, and no thread with the lock of one.
pub data AreFree : List PlayTask → Type 0 where
  free : (s t : PlayTask) → s.locked ≡ false → t.locked ≡ false → AreFree (s ∷ t ∷ [])

-- GStreamer seeks in each of `rounds` rounds from `k` on.
abbrev pub all_sought : (ℕ → Bool) → ℕ → ℕ → Bool
all_sought sought k zero = true
all_sought sought k (suc rounds) = sought k && all_sought sought (k + 1) rounds

-- The bytes of an ASCII text.
abbrev pub bytes_of : String → List ℕ
bytes_of [] = []
bytes_of (c ∷ text) = code c ∷ bytes_of text

-- What `main` asks GStreamer to play.
abbrev pub played : String
played = "playbin uri=file:///home/lucifer/my_work/mpegts-reader/melon/playlist.m3u8"

-- The play of `main` on a new player.
play_first :
    (handler callback pipeline : ℕ)
    → (player : Player) × (gst_player_play pipeline (gst_player_new handler) (main_request callback)
        ≡ returns (player, (parse_launch (bytes_of played) ∷ [], pos 0)))
      × AreFree player.tasks
unfolding gst_player_play gst_player_new thread_pool_new
play_first handler callback pipeline = (_, refl, free _ _ refl refl)

-- A seek of `main` on such a player.
seek_free :
    (sought : Bool) (pool : ThreadPool) (tasks : List PlayTask) (id : ℕ)
    → AreFree tasks
    → (player : Player) × (calls : List Call) × (gst_player_seek sought
          (record { pool = pool; tasks = tasks; id = id })
          (pos 0)
          (pos 30014)
        ≡ returns (player, (calls, if sought then pos 0 else negsuc 0)))
      × AreFree player.tasks
unfolding gst_player_seek seek_task
seek_free sought pool _ id (free s t s_free t_free) = (
  record { pool = pool; tasks = (record s { locked = false }) ∷ t ∷ []; id = id },
  element_seek s.pipeline (pos 30014) ∷ [],
  rw (gst_player_seek, seek_task, s_free) refl,
  free (record s { locked = false }) t refl t_free,
)

-- A round and those after it.
after_seek_round :
    (sought more : Bool) (player : Player) (calls : List Call) (rest : Player → Seeking)
    → rest player ≡ (if more then goes_on else exits)
    → after_seek (returns (player, (calls, if sought then pos 0 else negsuc 0))) rest
      ≡ (if sought && more then goes_on else exits)
after_seek_round true more player calls rest e = e
after_seek_round false more player calls rest e = refl

module _ (meanwhile : ℕ → Player → Player) (sought : ℕ → Bool)
    (others : (k : ℕ) (player : Player)
      → AreFree player.tasks
      → AreFree (meanwhile k player).tasks) where
  seek_loop-AreFree :
      (rounds k : ℕ) (player : Player)
      → AreFree player.tasks
      → seek_loop rounds 10 meanwhile sought k (pos 0) player
        ≡ (if all_sought sought k rounds then goes_on else exits)
  unfolding seek_loop
  seek_loop-AreFree zero k player f = refl
  seek_loop-AreFree (suc rounds) k player f =
      let p = meanwhile k player in
      let (next, calls, e, f') = seek_free (sought k) p.pool p.tasks p.id (others k player f) in
      let rest = seek_loop-AreFree rounds (k + 1) next f' in
      rw (seek_loop, e)
        (after_seek_round (sought k) (all_sought sought (k + 1) rounds) next calls _ rest)

  -- Where `main` accepts its arguments, it removes the file at the output path and no other, and its play
  -- makes one call, `gst_parse_launch` of "playbin uri=" and
  -- file:///home/lucifer/my_work/mpegts-reader/melon/playlist.m3u8, and gets the id 0. `main` is in its loop
  -- after any number of rounds in which GStreamer has always sought, and ends by `exit(-1)` after one in
  -- which it has not: whatever the other threads do to the player, as long as they give the locks of its
  -- two tasks back. It returns in no case.
  pub main_lem :
      (handler callback pipeline rounds : ℕ) (argv : List (List ℕ)) (options : Options)
      → parse_args argv no_options ≡ done options
      → main handler callback pipeline meanwhile sought rounds argv
        ≡ done (
          options.output_path,
          returns (
            parse_launch (bytes_of played) ∷ [],
            pos 0,
            if all_sought sought 0 rounds then goes_on else exits,
          ),
        )
  unfolding main
  main_lem handler callback pipeline rounds argv options e =
      let (player, asked, f) = play_first handler callback pipeline in
      rw (main, e, asked)
        (ap
          (λ s. done (options.output_path, returns (parse_launch (bytes_of played) ∷ [], pos 0, s)))
          (seek_loop-AreFree rounds 0 player f))
