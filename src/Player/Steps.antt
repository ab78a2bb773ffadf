-- ===== src/Player/Steps.antt =====
-- What threads do to one play task, each under its lock: the calls of clients, and the phases of workers.
use mpegts_reader.Common.{ℕ, ◌≡◌, ◌≢◌, Bool, true, false, List, [], ◌∷◌, get_elem?, set, some}
use mpegts_reader.Common.Integers.{ℤ}
use mpegts_reader.Player.{
  PlayTask, Act, returns, ◌>>=◌, lock, empty_task, is_playing_task, seek_task, stop_task,
  pause_task, resume_task,
}
use mpegts_reader.Player.Calls.{Call}
use mpegts_reader.Player.Play.{Request, start_task, submitted_task}
use mpegts_reader.Player.Worker.{
  Phase, begins, Answers, handle_play_task, play_task_callback, enter_play, leave_play,
}

-- What is done with the lock of a task: the functions of the client, the two parts of `gst_player_play`
-- (the second by what `thread_pool_submit` returned), and the three parts of a worker.
pub data Op : Type 0 where
  asks pauses resumes stops reported : Op
  seeks : Bool → ℤ → Op
  starts : ℕ → ℕ → Request → Op
  submits : ℤ → Op
  entered : Answers → Op
  left : Answers → Op

-- The task that a result holds.
abbrev pub task_of : {R : Type 0} → Act (PlayTask × R) → Act PlayTask
task_of m = m >>= (λ result. returns result.0)

unfoldable pub run_op : Op → PlayTask → Act PlayTask
unfolding is_playing_task seek_task stop_task pause_task resume_task start_task play_task_callback
    enter_play leave_play
run_op asks task = task_of (is_playing_task task)
run_op pauses task = task_of (pause_task task)
run_op resumes task = task_of (resume_task task)
run_op stops task = task_of (stop_task task)
run_op reported task = play_task_callback task
run_op (seeks sought ms_offset) task = task_of (seek_task sought ms_offset task)
run_op (starts pipeline id request) task = task_of (start_task pipeline id request task)
run_op (submits res) task = lock task >>= (λ held. returns (submitted_task res held).0)
run_op (entered answers) task = enter_play answers task >>= (λ (after, calls, next). returns after)
run_op (left answers) task = leave_play answers task >>= (λ (after, calls, next). returns after)

-- The calls of a client; the other operations are parts of a worker's phases.
abbrev pub of_client : Op → Bool
of_client reported = false
of_client (entered answers) = false
of_client (left answers) = false
of_client op = true

-- A task, with the workers that play it.
pub record Slot : Type 0 where
  pub task : PlayTask
  pub workers : List Phase

pub data Step (slot slot' : Slot) : Type 0 where
  called :
      (op : Op) (task : PlayTask)
      → of_client op ≡ true
      → run_op op slot.task ≡ returns task
      → slot' ≡ record slot { task = task }
      → Step slot slot'
  hired : slot' ≡ record slot { workers = begins ∷ slot.workers } → Step slot slot'
  worked :
      (answers : Answers) (i : ℕ) (phase next : Phase) (task : PlayTask) (calls : List Call)
      → answers.loop ≢ 0
      → get_elem? slot.workers i ≡ some phase
      → handle_play_task answers phase slot.task ≡ returns (task, calls, next)
      → slot' ≡ record { task = task; workers = set slot.workers i next }
      → Step slot slot'

pub data Reach (slot : Slot) : Slot → Type 0 where
  here : Reach slot slot
  later : {middle last : Slot} → Reach slot middle → Step middle last → Reach slot last

-- A task of a new player.
abbrev pub new_slot : Slot
new_slot = record { task = empty_task; workers = [] }
