-- ===== src/Player/Play.antt =====
-- `gst_player_play`: an id, a task that is started, and its submission to the pool.
use mpegts_reader.Common.{
  ℕ, ◌+◌, ◌^◌, Bool, true, false, ◌==◌, ltb, if◌then◌else◌, List, [], ◌∷◌, ◌++◌, length, get_elem?,
  none, some, bit_and,
}
use mpegts_reader.Common.Integers.{ℤ, pos, negsuc}
use mpegts_reader.Common.Outcome.{Outcome, done, exited, fault, stuck}
use mpegts_reader.ThreadPool.{ThreadPool, thread_pool_submit}
use mpegts_reader.Player.{
  Player, PlayTask, PlayType, Act, returns, undefined, ◌>>=◌, lock, unlock, on_task, write_task,
  task_qmsk, gst_task_state_idle, gst_task_state_start,
}
use mpegts_reader.Player.Calls.{Call, parse_launch, object_unref}

-- sizeof(str_buffer)
abbrev pub str_buffer_size : ℕ
str_buffer_size = 255

-- What `sprintf` writes by GST_CMD_TEMPLATE, without the NUL: "playbin uri=" and the uri.
abbrev pub command : List ℕ → List ℕ
command uri = 112 ∷ 108 ∷ 97 ∷ 121 ∷ 98 ∷ 105 ∷ 110 ∷ 32 ∷ 117 ∷ 114 ∷ 105 ∷ 61 ∷ uri

-- The address of the task `i`, and of `play_task_callback`: any but NULL.
abbrev pub task_pointer : ℕ → ℕ
task_pointer i = i + 1

abbrev pub callback_pointer : ℕ
callback_pointer = 1

-- What a client asks for.
pub record Request : Type 0 where
  pub uri : List ℕ
  pub callback : ℕ
  pub arg : ℕ
  pub play_type : PlayType

-- The part under the first lock of the task; `pipeline` is what `gst_parse_launch` gives. The result says
-- whether the task was free.
unfoldable pub start_task : ℕ → ℕ → Request → PlayTask → Act (PlayTask × (List Call × Bool))
start_task pipeline play_task_id request task = do
  held ← lock task
  returns (
      if held.state == gst_task_state_idle
      then (
        unlock (record held {
          id = play_task_id;
          pipeline = pipeline;
          callback = request.callback;
          cb_arg = request.arg;
          play_type = request.play_type;
          state = gst_task_state_start;
        }),
        (parse_launch (command request.uri) ∷ [], true),
      )
      else (unlock held, ([], false)))

-- What the task becomes where `thread_pool_submit` returns `res`; whether it was submitted.
abbrev pub submitted_task : ℤ → PlayTask → PlayTask × (List Call × Bool)
submitted_task (pos task_id) held = (unlock held, ([], true))
submitted_task (negsuc n) held =
    (unlock (record held { state = gst_task_state_idle }), (object_unref held.pipeline ∷ [], false))

-- What the pool's outcomes are for the player.
abbrev pub pool_answer : {A : Type 0} → Outcome A → Act A
pool_answer (done result) = returns result
pool_answer (exited err) = undefined
pool_answer fault = undefined
pool_answer stuck = undefined

-- `thread_pool_submit(player->pool, task, play_task_callback, 0)`
abbrev pub submit_to : ThreadPool → ℕ → Outcome (ThreadPool × ℤ)
submit_to pool i = thread_pool_submit 0 pool (task_pointer i) callback_pointer (pos 0)

-- The part under the second lock of the task.
unfoldable pub submit_task : Player → ℕ → Act (Player × (List Call × Bool))
unfolding thread_pool_submit
submit_task player i = elim (get_elem? player.tasks i) [
  | none ↦ undefined
  | some task ↦ lock task >>= (λ held. pool_answer (submit_to player.pool i) >>= (λ (pool, res).
      returns (
        write_task {R = List Call × Bool} (record player { pool = pool }) i
          (submitted_task res held))))
]

-- The result of the call where the task is started, or is not.
abbrev pub play_started : ℕ → Player × (List Call × Bool) → Act (Player × (List Call × ℤ))
play_started play_task_id (player, (calls, false)) = returns (player, (calls, negsuc 0))
play_started play_task_id (player, (calls, true)) =
    submit_task player (bit_and play_task_id task_qmsk) >>= (λ (player, (more, submitted)).
      returns (player, (calls ++ more, if submitted then pos play_task_id else negsuc 0)))

-- `gst_player_play` behind the `sprintf`. The increment of `id`, an `int`, may overflow.
unfoldable pub play_command : ℕ → Player → Request → Act (Player × (List Call × ℤ))
unfolding start_task submit_task
play_command pipeline player request =
    if ltb (player.id + 1) (2 ^ 31)
    then on_task {R = List Call × Bool} (record player { id = player.id + 1 })
        (bit_and player.id task_qmsk) (start_task pipeline player.id request)
      >>= play_started player.id
    else undefined

-- `gst_player_play`, for a player that is not NULL.
unfoldable pub gst_player_play : ℕ → Player → Request → Act (Player × (List Call × ℤ))
unfolding play_command
gst_player_play pipeline player request =
    if ltb (length (command request.uri)) str_buffer_size
    then play_command pipeline player request
    else undefined
