-- ===== src/Examples/Players.antt =====
-- The theorems of Player on a new player, and on one whose pool has a task waiting.
use mpegts_reader.Common.{
  ℕ, ◌≡◌, ◌≤◌, ◌↔◌, ◌⊎◌, refl, true, false, ◌&&◌, not, ◌==◌, List, [], ◌∷◌, ◌++◌, length, get_elem?,
  some, arith,
}
use mpegts_reader.Common.Integers.{ℤ, pos, negsuc}
use mpegts_reader.Common.Outcome.{Outcome, done}
use mpegts_reader.ThreadPool.{
  ThreadPool, thread_pool_new, thread_pool_submit, next_task, task_state_run,
}
use mpegts_reader.ThreadPool.Steps.{Reachable, created, stepped, submitted}
use mpegts_reader.Player.{
  Player, PlayTask, single, returns, waits, undefined, empty_task, gst_player_stop, gst_player_seek,
  gst_player_stop_all, gst_task_state_idle, gst_task_state_start, gst_task_state_playing,
  gst_task_state_cancel,
}
use mpegts_reader.Player.Calls.{
  Call, ready, stopped, parse_launch, object_unref, element_seek, set_state, signal_watch,
  main_loop_run, main_loop_quit, main_loop_unref,
}
use mpegts_reader.Player.Play.{Request, command, gst_player_play}
use mpegts_reader.ThreadPool.{ok}
use mpegts_reader.Player.Worker.{
  begins, enters, runs, succeeds, reports, finished, call_back, success, handle_play_task, Answers,
  eos, cb_message,
}
use mpegts_reader.Player.Steps.{
  pauses, stops, starts, run_op, Slot, called, hired, Reach, here, later, new_slot,
}
use mpegts_reader.Player.Locks.{early_return-waits}
use mpegts_reader.Player.States.{IsPlayTask, Reach-IsPlayTask}
use mpegts_reader.Player.Messages.{quits, EndsPlay, cb_message-handle_play_task}
use mpegts_reader.Player.Race.{put_task, start_task_lost}
use mpegts_reader.Player.Release.{work, drops, work_lem}
use mpegts_reader.Player.Starts.{
  started_task, IsPlayer, refused_player, accepted_player, play_container,
}
use mpegts_reader.Player.Submit.{
  gst_player_play_lem, gst_player_play-undefined_iff, gst_player_seek-gst_player_play,
}
use mpegts_reader.Player.Stop.{stopped_task, stop_calls, gst_player_stop_all_lem}

abbrev request : Request
request = record { uri = 102 ∷ 105 ∷ 108 ∷ 101 ∷ []; callback = 4; arg = 9; play_type = single }

abbrev answers : Answers
answers = record { bus = 21; loop = 22; state_changed = true }

abbrev pool : ThreadPool
pool = thread_pool_new 77

-- A player whose threads have nothing to do, and one with a task waiting in the pool.
abbrev player : Player
player = record { pool = pool; tasks = empty_task ∷ empty_task ∷ []; id = 0 }

abbrev pool_of : Outcome (ThreadPool × ℤ) → ThreadPool
pool_of (done (pool', result)) = pool'
pool_of other = pool

abbrev filled : ThreadPool
filled = pool_of (thread_pool_submit 0 pool 5 6 (pos 0))

filled-Reachable : Reachable filled
unfolding thread_pool_new thread_pool_submit
filled-Reachable = stepped pool filled (created 77) (submitted 0 5 6 (pos 0) (pos 0) refl)

filled_size : filled.size ≡ 1
unfolding thread_pool_new thread_pool_submit
filled_size = refl

abbrev waiting_player : Player
waiting_player = record player { pool = filled }

abbrev busy_task : PlayTask
busy_task = record empty_task { pipeline = 31; loop = 22; state = gst_task_state_playing }

abbrev busy_player : Player
busy_player = record player { tasks = busy_task ∷ empty_task ∷ [] }

player-IsPlayer : IsPlayer player
player-IsPlayer = record { tasks = refl; pool = created 77; id = omega arith }

waiting-IsPlayer : IsPlayer waiting_player
waiting-IsPlayer = record { tasks = refl; pool = filled-Reachable; id = omega arith }

abbrev paused_slot : Slot
paused_slot = record new_slot { task = record empty_task { locked = true } }

paused_op : run_op pauses empty_task ≡ returns paused_slot.task
unfolding run_op
paused_op = refl

early_return-waits_example : run_op stops paused_slot.task ≡ waits
early_return-waits_example =
    early_return-waits pauses new_slot paused_slot paused_slot.task refl refl refl paused_op here
      stops

-- The first play of a new player, and a worker for it.
abbrev played : PlayTask
played = started_task 31 0 request empty_task

abbrev played_slot : Slot
played_slot = record { task = played; workers = begins ∷ [] }

started_op : run_op (starts 31 0 request) empty_task ≡ returns played
unfolding run_op
started_op = refl

played_slot-Reach : Reach new_slot played_slot
played_slot-Reach =
    later (later here (called (starts 31 0 request) played refl started_op refl)) (hired refl)

Reach-IsPlayTask_example : IsPlayTask played
Reach-IsPlayTask_example = Reach-IsPlayTask played_slot-Reach

-- The first play of that player in its main loop, and its task behind it.
abbrev looping : PlayTask
looping = record played { state = gst_task_state_playing; loop = 22 }

abbrev left_behind : PlayTask
left_behind = record played { pipeline = 0; loop = 0; state = gst_task_state_idle }

abbrev left_player : Player
left_player = record player { tasks = empty_task ∷ left_behind ∷ []; id = 1 }

left_player-IsPlayer : IsPlayer left_player
left_player-IsPlayer = record { tasks = refl; pool = created 77; id = omega arith }

abbrev leaving_calls : List Call
leaving_calls =
    main_loop_run 22
    ∷ main_loop_unref 22
    ∷ object_unref 21
    ∷ set_state 31 stopped
    ∷ object_unref 31
    ∷ []

leaves : handle_play_task answers runs looping ≡ returns (left_behind, leaving_calls, succeeds)
unfolding handle_play_task
leaves = refl

enters_loop : handle_play_task answers enters played ≡ returns (looping, signal_watch 21 ∷ [], runs)
unfolding handle_play_task
enters_loop = refl

-- The end of the stream, after `gst_player_stop` has made the play CANCEL.
cb_message-handle_play_task_example :
    (handle_play_task answers runs looping ≡ returns (left_behind, leaving_calls, succeeds))
    × ((cb_message eos (record looping { state = gst_task_state_cancel })
          ≡ set_state 31 ready ∷ main_loop_quit 22 ∷ [])
        ↔ EndsPlay eos single)
    × ((quits (cb_message eos (record looping { state = gst_task_state_cancel })) ≡ true)
        ↔ EndsPlay eos single)
cb_message-handle_play_task_example =
    cb_message-handle_play_task answers played looping (signal_watch 21 ∷ []) eos
      gst_task_state_cancel enters_loop

abbrev restarted : PlayTask
restarted = started_task 32 1 request left_behind

abbrev restarted_player : ThreadPool → Player
restarted_player = accepted_player 32 request left_behind left_player

start_task_lost_example :
    (pool' : ThreadPool) × (handle_play_task answers succeeds left_behind
      ≡ returns (left_behind, call_back left_behind success, reports ok))
    × ((gst_player_play 32 left_player request
          ≡ returns (restarted_player pool', (parse_launch (command request.uri) ∷ [], pos 1)))
        × (get_elem? (restarted_player pool').tasks 1 ≡ some restarted)
        × (restarted.state ≡ gst_task_state_start)
        × (gst_player_stop (restarted_player pool') (pos 1)
            ≡ returns (
              put_task
                  (restarted_player pool')
                  1
                  (record restarted { state = gst_task_state_cancel }),
              set_state 32 ready ∷ main_loop_quit 0 ∷ [],
            ))
        × (handle_play_task answers (reports ok) restarted
            ≡ returns (record restarted { state = gst_task_state_idle }, [], finished))
        × (gst_player_stop
              (put_task
                (restarted_player pool')
                1
                (record restarted { state = gst_task_state_idle }))
              (pos 1)
            ≡ returns (
              put_task
                  (restarted_player pool')
                  1
                  (record restarted { state = gst_task_state_idle }),
              [],
            )))
unfolding thread_pool_new
start_task_lost_example =
    start_task_lost 32 left_player request left_behind left_player-IsPlayer refl answers looping
      leaving_calls leaves (omega arith) refl

work_lem_example :
    (last : PlayTask) × (calls : List Call) × (work 5 answers begins played
      ≡ returns (last, calls, finished))
    × (last.state ≡ gst_task_state_idle)
    × (last.locked ≡ false)
    × (drops 31 calls ≡ (answers.state_changed && not (played.state == gst_task_state_cancel)))
work_lem_example = work_lem answers played refl (λ e. omega (arith, e))

gst_player_play_lem_example :
    ((player.pool.size ≡ 1)
      × (gst_player_play 31 player request
          ≡ returns (
            refused_player 31 request empty_task player,
            (parse_launch (command request.uri) ∷ object_unref 31 ∷ [], negsuc 0),
          )))
    ⊎ ((player.pool.size ≡ 0)
        × (n : ℕ) × (pool' pool'' : ThreadPool) × (gst_player_play 31 player request
            ≡ returns (
              accepted_player 31 request empty_task player pool',
              (parse_launch (command request.uri) ∷ [], pos player.id),
            ))
        × (next_task pool' ≡ done (some (pool'', n, true)))
        × (get_elem? pool''.tasks n
            ≡ some (record (play_container player) { state = task_state_run })))
gst_player_play_lem_example =
    gst_player_play_lem 31 player request empty_task player-IsPlayer refl refl refl (omega arith)

gst_player_play-undefined_iff_example :
    (gst_player_play 31 player request ≡ undefined) ↔ (243 ≤ length request.uri)
gst_player_play-undefined_iff_example =
    gst_player_play-undefined_iff 31 player request empty_task player-IsPlayer refl

gst_player_seek-gst_player_play_example :
    (sought_in : Player) × (res : ℤ) × (gst_player_play 31 waiting_player request
      ≡ returns (
        refused_player 31 request empty_task waiting_player,
        (parse_launch (command request.uri) ∷ object_unref 31 ∷ [], negsuc 0),
      ))
    × (gst_player_seek true
          (refused_player 31 request empty_task waiting_player)
          (pos 0)
          (pos 30014)
        ≡ returns (sought_in, (element_seek 31 (pos 30014) ∷ [], res)))
gst_player_seek-gst_player_play_example =
    gst_player_seek-gst_player_play 31 waiting_player request empty_task waiting-IsPlayer refl true
      (pos 30014) (omega arith) refl refl filled_size

gst_player_stop_all_lem_example :
    gst_player_stop_all busy_player
    ≡ returns (
      record busy_player { tasks = stopped_task busy_task ∷ stopped_task empty_task ∷ [] },
      stop_calls busy_task ++ stop_calls empty_task,
    )
gst_player_stop_all_lem_example =
    gst_player_stop_all_lem busy_player busy_task empty_task refl refl refl
