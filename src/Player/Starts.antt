-- ===== src/Player/Starts.antt =====
-- The two parts of `gst_player_play` on a player in use.
use mpegts_reader.Common.{
  ℕ, ◌+◌, ◌^◌, ◌<◌, ◌≡◌, ◌≢◌, refl, ap, ◌∙◌, true, false, ◌==◌, ltb, List, [], ◌∷◌, length,
  get_elem?, get_elem?-set_self, set, set-set, set-get_elem?, some, bit_and, arith,
}
use mpegts_reader.Common.Bits.Masks.{and_0x01}
use mpegts_reader.Common.Integers.{ℤ, pos, negsuc}
use mpegts_reader.Common.Outcome.{done}
use mpegts_reader.ThreadPool.{ThreadPool, TaskContainer}
use mpegts_reader.ThreadPool.Steps.{Reachable, submitted_container}
use mpegts_reader.Player.{
  Player, PlayTask, returns, waits, unlock, task_qmsk, gst_task_state_idle, gst_task_state_start,
}
use mpegts_reader.Player.Calls.{parse_launch}
use mpegts_reader.Player.Play.{
  Request, command, submit_task, submit_to, submitted_task, play_started, play_command,
  gst_player_play, task_pointer, callback_pointer,
}

-- The task as `gst_player_play` starts it.
abbrev pub started_task : ℕ → ℕ → Request → PlayTask → PlayTask
started_task pipeline id request task = record task {
  id = id;
  pipeline = pipeline;
  callback = request.callback;
  cb_arg = request.arg;
  play_type = request.play_type;
  state = gst_task_state_start;
  locked = false;
}

-- A player in use: two tasks, a pool that threads can reach, and an id that can go on.
pub record IsPlayer (player : Player) : Type 0 where
  pub tasks : length player.tasks ≡ 2
  pub pool : Reachable player.pool
  pub id : player.id + 1 < 2 ^ 31

-- The task that the next play goes to.
abbrev pub next_slot : Player → ℕ
next_slot player = bit_and player.id task_qmsk

pub next_slot_lt : (player : Player) → next_slot player < 2
next_slot_lt player = omega (arith, and_0x01 player.id)

-- The player behind the first part of a play.
abbrev pub started_player : ℕ → Request → PlayTask → Player → Player
started_player pipeline request task player = record player {
  id = player.id + 1;
  tasks = set player.tasks (next_slot player) (started_task pipeline player.id request task);
}

-- The player behind a play that the pool refused, and behind one that it accepted.
abbrev pub refused_player : ℕ → Request → PlayTask → Player → Player
refused_player pipeline request task player = record player {
  id = player.id + 1;
  tasks =
      set player.tasks (next_slot player)
        (record (started_task pipeline player.id request task) { state = gst_task_state_idle });
}

abbrev pub accepted_player : ℕ → Request → PlayTask → Player → ThreadPool → Player
accepted_player pipeline request task player pool = record player {
  id = player.id + 1;
  pool = pool;
  tasks = set player.tasks (next_slot player) (started_task pipeline player.id request task);
}

-- The container that the pool then holds.
abbrev pub play_container : Player → TaskContainer
play_container player =
    submitted_container player.pool (task_pointer (next_slot player)) callback_pointer (pos 0)

module _ (pipeline : ℕ) (player : Player) (request : Request) (task : PlayTask)
    (is_player : IsPlayer player) (at : get_elem? player.tasks (next_slot player) ≡ some task) where
  abbrev started : PlayTask
  started = started_task pipeline player.id request task

  abbrev held : PlayTask
  held = record started { locked = true }

  pub start_idle :
      task.locked ≡ false
      → task.state ≡ gst_task_state_idle
      → play_command pipeline player request
        ≡ play_started player.id (
          started_player pipeline request task player,
          (parse_launch (command request.uri) ∷ [], true),
        )
  unfolding play_command
  start_idle free idle =
      let small : ltb (player.id + 1) (2 ^ 31) ≡ true = ground (arith, is_player.id) in
      rw (play_command, small, at, free, idle) refl

  pub start_busy :
      task.locked ≡ false
      → task.state ≢ gst_task_state_idle
      → play_command pipeline player request
        ≡ returns (record player { id = player.id + 1 }, ([], negsuc 0))
  unfolding play_command
  start_busy free busy =
      let small : ltb (player.id + 1) (2 ^ 31) ≡ true = ground (arith, is_player.id) in
      let is_busy : (task.state == gst_task_state_idle) ≡ false = ground (arith, busy) in
      let same : unlock task ≡ task = ground (arith, free) in
      let kept : set player.tasks (next_slot player) (unlock task) ≡ player.tasks =
        ap (set player.tasks (next_slot player)) same
        ∙ set-get_elem? player.tasks (next_slot player) task at in
      rw (play_command, small, at, free, is_busy)
        (ap
          (λ (tasks : List PlayTask).
            returns (record player { id = player.id + 1; tasks = tasks }, ([], negsuc 0)))
          kept)

  pub start_locked : task.locked ≡ true → play_command pipeline player request ≡ waits
  unfolding play_command
  start_locked held =
      let small : ltb (player.id + 1) (2 ^ 31) ≡ true = ground (arith, is_player.id) in
      rw (play_command, small, at, held) refl

  pub submit_started :
      (pool : ThreadPool) (res : ℤ)
      → submit_to player.pool (next_slot player) ≡ done (pool, res)
      → submit_task (started_player pipeline request task player) (next_slot player)
        ≡ returns (
          record player {
            id = player.id + 1;
            pool = pool;
            tasks = set player.tasks (next_slot player) (submitted_task res held).0;
          },
          (submitted_task res held).1,
        )
  unfolding submit_task
  submit_started pool res e =
      let i = next_slot player in
      let within : i < length player.tasks = omega (arith, is_player.tasks, next_slot_lt player) in
      rw
        (
          submit_task,
          get_elem?-set_self player.tasks i started within,
          e,
          set-set player.tasks i started (submitted_task res held).0,
        )
        refl

  pub fits_buffer :
      length (command request.uri) < 255
      → gst_player_play pipeline player request ≡ play_command pipeline player request
  unfolding gst_player_play
  fits_buffer short =
      let fits : ltb (length (command request.uri)) 255 ≡ true = ground (arith, short) in
      rw (gst_player_play, fits) refl
