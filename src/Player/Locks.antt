-- ===== src/Player/Locks.antt =====
-- Who leaves the lock of a task held, and what becomes of the task then.
use mpegts_reader.Common.{
  ◌≡◌, inl, inr, refl, sym, subst, ◌∙◌, Bool, true, false, ◌==◌, ◌&&◌, if◌then◌else◌, List, arith,
  Bool-cases,
}
use mpegts_reader.Player.{
  PlayTask, returns, waits, unlock, gst_task_state_start, gst_task_state_cancel,
  gst_task_state_playing, gst_task_state_idle,
}
use mpegts_reader.Player.Acts.{returns-injective, waits-ne-returns}
use mpegts_reader.Player.Calls.{Call}
use mpegts_reader.Player.Worker.{
  Phase, begins, enters, runs, succeeds, reports, finished, Answers, handle_play_task,
}
use mpegts_reader.Player.Steps.{
  Op, asks, pauses, resumes, stops, reported, seeks, starts, submits, entered, left, run_op, Slot,
  Step, called, hired, worked, Reach, here, later,
}
use mpegts_reader.Common.Integers.{pos, negsuc}

-- The two functions with an early return.
abbrev pub returns_early : Op → Bool
returns_early pauses = true
returns_early resumes = true
returns_early op = false

-- While the lock is held, whatever needs it waits.
pub run_op_locked : (op : Op) (task : PlayTask) → task.locked ≡ true → run_op op task ≡ waits
unfolding run_op
run_op_locked asks task h = rw h refl
run_op_locked pauses task h = rw h refl
run_op_locked resumes task h = rw h refl
run_op_locked stops task h = rw h refl
run_op_locked reported task h = rw h refl
run_op_locked (seeks sought ms_offset) task h = rw h refl
run_op_locked (starts pipeline id request) task h = rw h refl
run_op_locked (submits res) task h = rw h refl
run_op_locked (entered answers) task h = rw h refl
run_op_locked (left answers) task h = rw h refl

-- A thread gives a free lock back, whatever it does with the task, except that `gst_player_pause` and
-- `gst_player_resume` keep it where the task is idle.
pub run_op-locked :
    (op : Op) (task : PlayTask)
    → task.locked ≡ false
    → (task' : PlayTask) × (run_op op task ≡ returns task')
      × (task'.locked ≡ (returns_early op && task.state == gst_task_state_idle))
unfolding run_op
run_op-locked asks task h = (unlock task, rw h refl, refl)
run_op-locked pauses task h =
    (record task { locked = task.state == gst_task_state_idle }, ground arith, refl)
run_op-locked resumes task h =
    (record task { locked = task.state == gst_task_state_idle }, ground arith, refl)
run_op-locked stops task h =
    let after = record task {
      state = if task.state == gst_task_state_idle then task.state else gst_task_state_cancel;
    } in
    (unlock after, ground arith, refl)
run_op-locked reported task h =
    (unlock (record task { state = gst_task_state_idle }), rw h refl, refl)
run_op-locked (seeks sought ms_offset) task h = (unlock task, rw h refl, refl)
run_op-locked (starts pipeline id request) task h =
    elim (Bool-cases (task.state == gst_task_state_idle)) [
      | inl idle ↦ (
        record task {
          id = id;
          pipeline = pipeline;
          callback = request.callback;
          cb_arg = request.arg;
          play_type = request.play_type;
          state = gst_task_state_start;
          locked = false;
        },
        rw (h, idle) refl,
        refl,
      )
      | inr busy ↦ (unlock task, rw (h, busy) refl, refl)
    ]
run_op-locked (submits (pos n)) task h = (unlock task, rw h refl, refl)
run_op-locked (submits (negsuc n)) task h =
    (unlock (record task { state = gst_task_state_idle }), rw h refl, refl)
run_op-locked (entered answers) task h = elim (Bool-cases (task.state == gst_task_state_cancel)) [
  | inl canceled ↦ (unlock task, rw (h, canceled) refl, refl)
  | inr goes_on ↦ (
    unlock (record task { state = gst_task_state_playing; loop = answers.loop }),
    rw (h, goes_on) refl,
    refl,
  )
]
run_op-locked (left answers) task h =
    (unlock (record task { pipeline = 0; loop = 0; state = gst_task_state_idle }), rw h refl, refl)

-- A phase of a worker changes the task under its lock, or not at all.
handle_play_task-locked :
    (answers : Answers) (phase next : Phase) (task task' : PlayTask) (calls : List Call)
    → task.locked ≡ true
    → handle_play_task answers phase task ≡ returns (task', calls, next)
    → task' ≡ task
unfolding handle_play_task
handle_play_task-locked answers begins next task task' calls h e = cc
handle_play_task-locked answers enters next task task' calls h e =
    absurd (waits-ne-returns (rw (handle_play_task, h) refl) e)
handle_play_task-locked answers runs next task task' calls h e =
    absurd (waits-ne-returns (rw (handle_play_task, h) refl) e)
handle_play_task-locked answers succeeds next task task' calls h e = cc
handle_play_task-locked answers (reports result) next task task' calls h e =
    absurd (waits-ne-returns (rw (handle_play_task, h) refl) e)
handle_play_task-locked answers finished next task task' calls h e = cc

Step-locked :
    {slot slot' : Slot} → Step slot slot' → slot.task.locked ≡ true → slot'.task.locked ≡ true
Step-locked {slot} (called op task client e is) h =
    absurd (waits-ne-returns (run_op_locked op slot.task h) e)
Step-locked (hired is) h = rw is h
Step-locked {slot} (worked answers i phase next task calls loop at e is) h =
    rw (is, handle_play_task-locked answers phase next slot.task task calls h e) h

Reach-locked :
    {slot slot' : Slot} → Reach slot slot' → slot.task.locked ≡ true → slot'.task.locked ≡ true
Reach-locked here h = h
Reach-locked (later reach step) h = Step-locked step (Reach-locked reach h)

-- Once `gst_player_pause` or `gst_player_resume` has returned from a call on an idle task whose lock was
-- free, then whatever clients and workers do from there on, every operation that needs the lock of this
-- task waits.
pub early_return-waits :
    (op : Op) (slot last : Slot) (task : PlayTask)
    → returns_early op ≡ true
    → slot.task.locked ≡ false
    → slot.task.state ≡ gst_task_state_idle
    → run_op op slot.task ≡ returns task
    → Reach (record slot { task = task }) last
    → (next : Op) → run_op next last.task ≡ waits
early_return-waits op slot last task early free idle e reach next =
    let (task', e', locked) = run_op-locked op slot.task free in
    let held : task'.locked ≡ true = locked ∙ rw (early, idle) refl in
    let same : task' ≡ task = returns-injective (sym e' ∙ e) in
    run_op_locked next last.task (Reach-locked reach (subst (λ t. t.locked ≡ true) same held))
