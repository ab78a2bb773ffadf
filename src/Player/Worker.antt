-- ===== src/Player/Worker.antt =====
-- What a thread of the pool does with a play task: `handle_play_task`, then `play_task_callback`; and
-- `cb_message`, which the main loop calls in between. Between two phases other threads may change the task.
use mpegts_reader.Common.{ℕ, ltb, Bool, ◌==◌, if◌then◌else◌, List, [], ◌∷◌}
use mpegts_reader.Common.Integers.{ℤ, pos, negsuc}
use mpegts_reader.Player.{
  PlayTask, PlayType, single, looped, Act, returns, ◌>>=◌, lock, unlock, gst_task_state_idle,
  gst_task_state_playing, gst_task_state_cancel,
}
use mpegts_reader.ThreadPool.{TaskResult, ok, fail}
use mpegts_reader.Player.Calls.{
  Call, stopped, ready, paused, playing, object_unref, get_bus, set_state, element_seek,
  signal_watch, main_loop_run, main_loop_quit, main_loop_unref, called_back,
}

-- SUCCESS, ERR_UNABLE_TO_PLAY, ERR_CANCELED
abbrev pub success : ℤ
success = pos 0

abbrev pub err_unable_to_play : ℤ
err_unable_to_play = negsuc 0

abbrev pub err_canceled : ℤ
err_canceled = negsuc 1

-- Where a worker stands: at the head of `handle_play_task`, in front of its first lock, in the main loop,
-- behind its second lock, in front of `play_task_callback`, or behind it.
pub data Phase : Type 0 where
  begins enters runs succeeds : Phase
  reports : TaskResult → Phase
  finished : Phase

-- What GStreamer and GLib answer to a worker.
pub record Answers : Type 0 where
  pub bus : ℕ
  pub loop : ℕ
  pub state_changed : Bool

-- The client's callback, unless it is NULL.
abbrev pub call_back : PlayTask → ℤ → List Call
call_back task result =
    if task.callback == 0 then [] else called_back task.id task.callback result task.cb_arg ∷ []

unfoldable pub begin_play : Answers → PlayTask → List Call × Phase
begin_play answers task =
    if answers.state_changed
    then (get_bus task.pipeline ∷ set_state task.pipeline playing ∷ [], enters)
    else (
      get_bus task.pipeline ∷ set_state task.pipeline playing ∷ call_back task err_unable_to_play,
      reports fail,
    )

unfoldable pub enter_play : Answers → PlayTask → Act (PlayTask × List Call × Phase)
enter_play answers task = do
  held ← lock task
  returns (
      if held.state == gst_task_state_cancel
      then (unlock held, call_back held err_canceled, reports fail)
      else (
        unlock (record held { state = gst_task_state_playing; loop = answers.loop }),
        signal_watch answers.bus ∷ [],
        runs,
      ))

unfoldable pub leave_play : Answers → PlayTask → Act (PlayTask × List Call × Phase)
leave_play answers task = do
  held ← lock task
  returns (
    unlock (record held { pipeline = 0; loop = 0; state = gst_task_state_idle }),
    main_loop_run task.loop
        ∷ main_loop_unref held.loop
        ∷ object_unref answers.bus
        ∷ set_state held.pipeline stopped
        ∷ object_unref held.pipeline
        ∷ [],
    succeeds,
  )

-- `play_task_callback`
unfoldable pub play_task_callback : PlayTask → Act PlayTask
play_task_callback task = do
  held ← lock task
  returns (unlock (record held { state = gst_task_state_idle }))

-- One phase of a worker on the task that it plays.
unfoldable pub handle_play_task : Answers → Phase → PlayTask → Act (PlayTask × List Call × Phase)
unfolding begin_play enter_play leave_play play_task_callback
handle_play_task answers begins task =
    let (calls, next) = begin_play answers task in returns (task, calls, next)
handle_play_task answers enters task = enter_play answers task
handle_play_task answers runs task = leave_play answers task
handle_play_task answers succeeds task = returns (task, call_back task success, reports ok)
handle_play_task answers (reports result) task =
    play_task_callback task >>= (λ after. returns (after, [], finished))
handle_play_task answers finished task = returns (task, [], finished)

-- The messages of a bus that `cb_message` tells apart; of one of buffering, its percentage.
pub data Message : Type 0 where
  error eos clock_lost other : Message
  buffering : ℕ → Message

abbrev pub end_of_stream : PlayTask → PlayType → List Call
end_of_stream task single = set_state task.pipeline ready ∷ main_loop_quit task.loop ∷ []
end_of_stream task looped = element_seek task.pipeline (pos 0) ∷ []

unfoldable pub cb_message : Message → PlayTask → List Call
cb_message error task = set_state task.pipeline ready ∷ main_loop_quit task.loop ∷ []
cb_message eos task = end_of_stream task task.play_type
cb_message (buffering percent) task =
    if task.state == gst_task_state_playing
    then []
    else if ltb percent 100
    then set_state task.pipeline paused ∷ []
    else set_state task.pipeline playing ∷ []
cb_message clock_lost task = set_state task.pipeline paused ∷ set_state task.pipeline playing ∷ []
cb_message other task = []
