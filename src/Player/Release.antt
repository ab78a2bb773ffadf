-- ===== src/Player/Release.antt =====
-- A worker that nobody disturbs, from the head of `handle_play_task` to the end of `play_task_callback`.
use mpegts_reader.Common.{
  ℕ, zero, suc, ◌≡◌, ◌≢◌, refl, Bool, false, Bool-cases, inl, inr, ◌==◌, ==_refl, ◌||◌, ◌&&◌, not,
  List, [], ◌∷◌, ◌++◌, arith,
}
use mpegts_reader.Common.Integers.{ℤ}
use mpegts_reader.Player.{PlayTask, Act, returns, ◌>>=◌, gst_task_state_idle, gst_task_state_cancel}
use mpegts_reader.Player.Calls.{
  Call, object_unref, get_bus, set_state, playing, stopped, signal_watch, main_loop_run,
  main_loop_unref,
}
use mpegts_reader.Player.Worker.{
  Phase, begins, finished, Answers, handle_play_task, call_back, success, err_canceled,
  err_unable_to_play,
}

-- At most `n` phases of a worker, with no step of another thread in between.
unfoldable pub work : ℕ → Answers → Phase → PlayTask → Act (PlayTask × List Call × Phase)
unfolding handle_play_task
work zero answers phase task = returns (task, [], phase)
work (suc n) answers phase task = do
  (after, calls, next) ← handle_play_task answers phase task
  (last, more, end) ← work n answers next after
  returns (last, calls ++ more, end)

-- Calls that drop the reference to `object`.
abbrev pub drops_by : ℕ → Call → Bool
drops_by object (object_unref other) = other == object
drops_by object call = false

abbrev pub drops : ℕ → List Call → Bool
drops object [] = false
drops object (call ∷ calls) = drops_by object call || drops object calls

drops-call_back :
    (object : ℕ) (task : PlayTask) (result : ℤ) → drops object (call_back task result ++ []) ≡ false
drops-call_back object task result = ground arith

-- A worker that nobody disturbs, on a task whose lock is free, ends after five phases at most and leaves
-- the task idle with its lock free; it drops the reference to the pipeline, where that is not the bus,
-- exactly if GStreamer starts to play and the task is not canceled.
pub work_lem :
    (answers : Answers) (task : PlayTask)
    → task.locked ≡ false
    → task.pipeline ≢ answers.bus
    → (last : PlayTask) × (calls : List Call) × (work 5 answers begins task
        ≡ returns (last, calls, finished))
      × (last.state ≡ gst_task_state_idle)
      × (last.locked ≡ false)
      × (drops task.pipeline calls
          ≡ (answers.state_changed && not (task.state == gst_task_state_cancel)))
unfolding work
work_lem answers task free distinct = elim (Bool-cases answers.state_changed) [
  | inl changed ↦ elim (Bool-cases (task.state == gst_task_state_cancel)) [
    | inl canceled ↦ (
      record task { locked = false; state = gst_task_state_idle },
      get_bus task.pipeline ∷ set_state task.pipeline playing ∷ (call_back task err_canceled ++ []),
      rw (work, free, changed, canceled) refl,
      refl,
      refl,
      rw (changed, canceled) (drops-call_back task.pipeline task err_canceled),
    )
    | inr goes_on ↦ (
      record task { pipeline = 0; loop = 0; state = gst_task_state_idle; locked = false },
      get_bus task.pipeline
          ∷ set_state task.pipeline playing
          ∷ signal_watch answers.bus
          ∷ main_loop_run answers.loop
          ∷ main_loop_unref answers.loop
          ∷ object_unref answers.bus
          ∷ set_state task.pipeline stopped
          ∷ object_unref task.pipeline
          ∷ (call_back task success ++ []),
      rw (work, free, changed, goes_on) refl,
      refl,
      refl,
      rw (changed, goes_on) (ground (arith, ==_refl task.pipeline)),
    )
  ]
  | inr failed ↦ (
    record task { locked = false; state = gst_task_state_idle },
    get_bus task.pipeline
        ∷ set_state task.pipeline playing
        ∷ (call_back task err_unable_to_play ++ []),
    rw (work, free, failed) refl,
    refl,
    refl,
    rw failed (drops-call_back task.pipeline task err_unable_to_play),
  )
]
