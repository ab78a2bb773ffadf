-- ===== src/Player.antt =====
-- The player of gst_aplay.c: two play tasks, each under its own lock, that are played by the threads of
-- the pool. GStreamer and GLib are not modelled: a call of them is an entry of a list, and what it
-- answers is an argument.
pub mod Acts
pub mod Calls
pub mod Worker
pub mod Play
pub mod Steps
pub mod States
pub mod Messages
pub mod Race
pub mod Release
pub mod Starts
pub mod Submit
pub mod Stop
pub mod Locks
use mpegts_reader.Common.{
  ℕ, zero, suc, ◌+◌, ◌-◌, ◌^◌, Bool, true, false, ◌==◌, ltb, leb, if◌then◌else◌, not, List, [], ◌∷◌,
  ◌++◌, length, get_elem?, set, replicate, Option, none, some, bit_and,
}
use mpegts_reader.Common.Integers.{ℤ, pos, negsuc}
use mpegts_reader.Common.Outcome.{Outcome, done}
use mpegts_reader.ThreadPool.{ThreadPool, thread_pool_new, thread_pool_submit}
use Calls.{
  Call, GstState, ready, paused, playing, parse_launch, object_unref, set_state, element_seek,
  main_loop_quit,
}

abbrev pub gst_task_state_idle : ℕ
gst_task_state_idle = 0

abbrev pub gst_task_state_start : ℕ
gst_task_state_start = 1

abbrev pub gst_task_state_playing : ℕ
gst_task_state_playing = 2

abbrev pub gst_task_state_cancel : ℕ
gst_task_state_cancel = 3

-- TASK_QSZ and TASK_QMSK
abbrev pub task_qsz : ℕ
task_qsz = 2

abbrev pub task_qmsk : ℕ
task_qmsk = 0x1

-- `play_type_t`
pub data PlayType : Type 0 where
  single looped : PlayType

-- `gst_play_task_t`; pointers are addresses, 0 is NULL, and `locked` says whether a thread has the mutex.
pub record PlayTask : Type 0 where
  pub pipeline : ℕ
  pub loop : ℕ
  pub locked : Bool
  pub callback : ℕ
  pub cb_arg : ℕ
  pub state : ℕ
  pub play_type : PlayType
  pub id : ℕ

-- `struct gst_player`; every holder of its lock lets it go before it does anything else, so the lock is
-- left out.
pub record Player : Type 0 where
  pub pool : ThreadPool
  pub tasks : List PlayTask
  pub id : ℕ

-- What becomes of a call: it returns, it waits for a mutex that is held, or it does what C leaves
-- undefined.
pub data Act (A : Type 0) : Type 0 where
  returns : A → Act A
  waits : Act A
  undefined : Act A

infixl 5 ◌>>=◌
abbrev pub ◌>>=◌ : {A B : Type 0} → Act A → (A → Act B) → Act B
returns a >>= f = f a
waits >>= f = waits
undefined >>= f = undefined

-- `pthread_mutex_lock(&task->lock)` and `pthread_mutex_unlock`; the mutex is not recursive.
abbrev pub lock : PlayTask → Act PlayTask
lock task = if task.locked then waits else returns (record task { locked = true })

abbrev pub unlock : PlayTask → PlayTask
unlock task = record task { locked = false }

-- `play_task_id & TASK_QMSK` for an `int`.
abbrev pub slot_of : ℤ → ℕ
slot_of (pos n) = bit_and n task_qmsk
slot_of (negsuc n) = bit_and (2 ^ 32 - suc n) task_qmsk

-- What a function does through the pointer `&player->tasks[i]`: the player after it, and its result.
abbrev pub write_task : {R : Type 0} → Player → ℕ → PlayTask × R → Player × R
write_task player i (task, result) = (record player { tasks = set player.tasks i task }, result)

abbrev pub with_task :
    {R : Type 0} → (PlayTask → Act (PlayTask × R)) → Player → ℕ → Option PlayTask → Act (Player × R)
with_task f player i none = undefined
with_task f player i (some task) = f task >>= (λ done. returns (write_task player i done))

abbrev pub on_task : {R : Type 0} → Player → ℕ → (PlayTask → Act (PlayTask × R)) → Act (Player × R)
on_task player i f = with_task f player i (get_elem? player.tasks i)

-- A play task after `memset`.
abbrev pub empty_task : PlayTask
empty_task = record {
  pipeline = 0;
  loop = 0;
  locked = false;
  callback = 0;
  cb_arg = 0;
  state = gst_task_state_idle;
  play_type = single;
  id = 0;
}

-- `gst_player_new`, for an allocation that succeeds; `handler` is the address of `handle_play_task`.
unfoldable pub gst_player_new : ℕ → Player
gst_player_new handler = record {
  pool = thread_pool_new handler;
  tasks = replicate task_qsz empty_task;
  id = 0;
}

-- The functions on one task, each what it does with the task's lock.
unfoldable pub is_playing_task : PlayTask → Act (PlayTask × Bool)
is_playing_task task = do
  held ← lock task
  returns (unlock held, not (held.state == gst_task_state_idle))

-- `sought` is what `gst_element_seek` answers.
unfoldable pub seek_task : Bool → ℤ → PlayTask → Act (PlayTask × (List Call × ℤ))
seek_task sought ms_offset task = do
  held ← lock task
  returns
      (unlock held, (element_seek held.pipeline ms_offset ∷ [], if sought then pos 0 else negsuc 0))

unfoldable pub stop_task : PlayTask → Act (PlayTask × List Call)
stop_task task = do
  held ← lock task
  returns (
      if held.state == gst_task_state_idle then (unlock held, []) else (
        unlock (record held { state = gst_task_state_cancel }),
        set_state held.pipeline ready ∷ main_loop_quit held.loop ∷ [],
      ))

-- The early return of the two functions that follow leaves the mutex locked.
unfoldable pub pause_task : PlayTask → Act (PlayTask × List Call)
pause_task task = do
  held ← lock task
  returns (
      if held.state == gst_task_state_idle
      then (held, [])
      else (unlock held, set_state held.pipeline paused ∷ []))

unfoldable pub resume_task : PlayTask → Act (PlayTask × List Call)
resume_task task = do
  held ← lock task
  returns (
      if held.state == gst_task_state_idle
      then (held, [])
      else (unlock held, set_state held.pipeline playing ∷ []))

unfoldable pub gst_player_is_playing : Player → ℤ → Act (Player × Bool)
unfolding is_playing_task
gst_player_is_playing player play_task_id = on_task player (slot_of play_task_id) is_playing_task

unfoldable pub gst_player_seek : Bool → Player → ℤ → ℤ → Act (Player × (List Call × ℤ))
unfolding seek_task
gst_player_seek sought player play_task_id ms_offset =
    on_task {R = List Call × ℤ} player (slot_of play_task_id) (seek_task sought ms_offset)

unfoldable pub gst_player_stop : Player → ℤ → Act (Player × List Call)
unfolding stop_task
gst_player_stop player play_task_id = on_task player (slot_of play_task_id) stop_task

unfoldable pub gst_player_pause : Player → ℤ → Act (Player × List Call)
unfolding pause_task
gst_player_pause player play_task_id = on_task player (slot_of play_task_id) pause_task

unfoldable pub gst_player_resume : Player → ℤ → Act (Player × List Call)
unfolding resume_task
gst_player_resume player play_task_id = on_task player (slot_of play_task_id) resume_task

-- The loop of `gst_player_stop_all`, for `count` more tasks from `idx` on.
unfoldable pub stop_from : ℕ → ℕ → Player → Act (Player × List Call)
unfolding gst_player_stop
stop_from zero idx player = returns (player, [])
stop_from (suc count) idx player = do
  (stopped, calls) ← gst_player_stop player (pos idx)
  (last, more) ← stop_from count (idx + 1) stopped
  returns (last, calls ++ more)

unfoldable pub gst_player_stop_all : Player → Act (Player × List Call)
unfolding stop_from
gst_player_stop_all player = stop_from task_qsz 0 player

-- `gst_player_destroy`
abbrev pub gst_player_destroy : Player → Player
gst_player_destroy player = player
