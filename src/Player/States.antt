-- ===== src/Player/States.antt =====
-- The states of a play task in every order of steps: a playing task has a main loop.
use mpegts_reader.Common.{◌≡◌, ◌≢◌, ◌<◌, ◌⊎◌, inl, true, List, arith}
use mpegts_reader.Common.Integers.{pos, negsuc}
use mpegts_reader.Player.{PlayTask, returns, gst_task_state_playing}
use mpegts_reader.Player.Calls.{Call}
use mpegts_reader.Player.Worker.{
  Phase, begins, enters, runs, succeeds, reports, finished, Answers, handle_play_task,
}
use mpegts_reader.Player.Steps.{
  Op, asks, pauses, resumes, stops, reported, seeks, starts, submits, entered, left, run_op,
  of_client, Slot, Step, called, hired, worked, Reach, here, later, new_slot,
}

pub record IsPlayTask (task : PlayTask) : Type 0 where
  pub state : task.state < 4
  pub loop : (task.state ≢ gst_task_state_playing) ⊎ (task.loop ≢ 0)

run_op-IsPlayTask :
    (op : Op) (task task' : PlayTask)
    → of_client op ≡ true
    → IsPlayTask task
    → run_op op task ≡ returns task'
    → IsPlayTask task'
unfolding run_op
run_op-IsPlayTask asks task task' c v e = ground arith
run_op-IsPlayTask pauses task task' c v e = ground arith
run_op-IsPlayTask resumes task task' c v e = ground arith
run_op-IsPlayTask stops task task' c v e = ground arith
run_op-IsPlayTask reported task task' c v e = cc
run_op-IsPlayTask (seeks sought ms_offset) task task' c v e = ground arith
run_op-IsPlayTask (starts pipeline id request) task task' c v e = ground arith
run_op-IsPlayTask (submits (pos n)) task task' c v e = ground arith
run_op-IsPlayTask (submits (negsuc n)) task task' c v e = ground arith
run_op-IsPlayTask (entered answers) task task' c v e = cc
run_op-IsPlayTask (left answers) task task' c v e = cc

handle_play_task-IsPlayTask :
    (answers : Answers) (phase next : Phase) (task task' : PlayTask) (calls : List Call)
    → answers.loop ≢ 0
    → IsPlayTask task
    → handle_play_task answers phase task ≡ returns (task', calls, next)
    → IsPlayTask task'
unfolding handle_play_task
handle_play_task-IsPlayTask answers begins next task task' calls l v e = ground arith
handle_play_task-IsPlayTask answers enters next task task' calls l v e = ground arith
handle_play_task-IsPlayTask answers runs next task task' calls l v e = ground arith
handle_play_task-IsPlayTask answers succeeds next task task' calls l v e = ground arith
handle_play_task-IsPlayTask answers (reports result) next task task' calls l v e = ground arith
handle_play_task-IsPlayTask answers finished next task task' calls l v e = ground arith

Step-IsPlayTask :
    {slot slot' : Slot} → Step slot slot' → IsPlayTask slot.task → IsPlayTask slot'.task
Step-IsPlayTask {slot} (called op task client e is) v =
    rw is (run_op-IsPlayTask op slot.task task client v e)
Step-IsPlayTask (hired is) v = rw is v
Step-IsPlayTask {slot} (worked answers i phase next task calls loop at e is) v =
    rw is (handle_play_task-IsPlayTask answers phase next slot.task task calls loop v e)

new_slot-IsPlayTask : IsPlayTask new_slot.task
new_slot-IsPlayTask = record { state = omega arith; loop = inl λ e. omega (arith, e) }

-- In whatever order the calls of clients and the phases of workers come, if `g_main_loop_new` never
-- gives NULL, the state of a play task is one of the four, and a task in the state PLAYING has a main
-- loop.
pub Reach-IsPlayTask : {slot : Slot} → Reach new_slot slot → IsPlayTask slot.task
Reach-IsPlayTask here = new_slot-IsPlayTask
Reach-IsPlayTask (later reach step) = Step-IsPlayTask step (Reach-IsPlayTask reach)
