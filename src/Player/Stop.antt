-- ===== src/Player/Stop.antt =====
-- `gst_player_stop_all` on a player whose locks are free.
use mpegts_reader.Common.{◌≡◌, ap, false, ◌==◌, if◌then◌else◌, List, [], ◌∷◌, ◌++◌, arith}
use mathlib.Core.List.{append-nil}
use mpegts_reader.Player.{
  Player, PlayTask, returns, stop_task, gst_player_stop_all, gst_task_state_idle,
  gst_task_state_cancel,
}
use mpegts_reader.Player.Calls.{Call, set_state, main_loop_quit, ready}

-- A task behind `gst_player_stop`, and the calls made for it.
abbrev pub stopped_task : PlayTask → PlayTask
stopped_task task =
    if task.state == gst_task_state_idle
    then task
    else record task { state = gst_task_state_cancel }

abbrev pub stop_calls : PlayTask → List Call
stop_calls task =
    if task.state == gst_task_state_idle
    then []
    else set_state task.pipeline ready ∷ main_loop_quit task.loop ∷ []

stop_task_lem :
    (task : PlayTask)
    → task.locked ≡ false
    → stop_task task ≡ returns (stopped_task task, stop_calls task)
unfolding stop_task
stop_task_lem task free = ground (arith, free)

-- With both locks free, `gst_player_stop_all` returns; it leaves every task that is not idle canceled, sets
-- its pipeline to READY and quits its main loop, in the order of the tasks, and it leaves the idle tasks,
-- the pool and the next id as they were.
pub gst_player_stop_all_lem :
    (player : Player) (a b : PlayTask)
    → player.tasks ≡ a ∷ b ∷ []
    → a.locked ≡ false
    → b.locked ≡ false
    → gst_player_stop_all player
      ≡ returns (
        record player { tasks = stopped_task a ∷ stopped_task b ∷ [] },
        stop_calls a ++ stop_calls b,
      )
unfolding gst_player_stop_all
gst_player_stop_all_lem player a b e free_a free_b =
    rw (gst_player_stop_all, e, stop_task_lem a free_a, stop_task_lem b free_b)
      (ap
        (λ (calls : List Call).
          returns
            (record player { tasks = stopped_task a ∷ stopped_task b ∷ [] }, stop_calls a ++ calls))
        (append-nil (stop_calls b)))
