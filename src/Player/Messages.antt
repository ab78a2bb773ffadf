-- ===== src/Player/Messages.antt =====
-- What `cb_message` does to the pipeline and to the main loop that a worker has entered.
use mpegts_reader.Common.{
  ℕ, ◌≡◌, ◌≢◌, ◌↔◌, ◌⊎◌, inl, inr, refl, sym, ap, ◌∙◌, Bool, true, false, Bool-cases, ◌==◌, ◌||◌,
  List, [], ◌∷◌, arith,
}
use mpegts_reader.ThreadPool.{TaskResult, fail}
use mpegts_reader.Player.{
  PlayTask, PlayType, single, looped, returns, waits, gst_task_state_idle, gst_task_state_playing,
  gst_task_state_cancel,
}
use mpegts_reader.Player.Acts.{returns-injective, waits-ne-returns}
use mpegts_reader.Player.Calls.{
  Call, stopped, ready, object_unref, set_state, signal_watch, main_loop_run, main_loop_quit,
  main_loop_unref,
}
use mpegts_reader.Player.Worker.{
  Phase, enters, runs, succeeds, reports, Answers, call_back, err_canceled, handle_play_task,
  Message, error, eos, clock_lost, other, buffering, cb_message, end_of_stream,
}

-- Calls of `g_main_loop_quit`, on whatever loop.
abbrev pub quits_by : Call → Bool
quits_by (main_loop_quit loop) = true
quits_by call = false

abbrev pub quits : List Call → Bool
quits [] = false
quits (call ∷ calls) = quits_by call || quits calls

-- The calls that end the play of a pipeline in a loop.
abbrev pub ending : ℕ → ℕ → List Call
ending pipeline loop = set_state pipeline ready ∷ main_loop_quit loop ∷ []

-- The calls of a worker from its main loop on.
abbrev pub leaving : Answers → ℕ → List Call
leaving answers pipeline =
    main_loop_run answers.loop
    ∷ main_loop_unref answers.loop
    ∷ object_unref answers.bus
    ∷ set_state pipeline stopped
    ∷ object_unref pipeline
    ∷ []

-- The messages that end a play.
abbrev pub EndsPlay : Message → PlayType → Type 0
EndsPlay message play_type = (message ≡ error) ⊎ ((message ≡ eos) × (play_type ≡ single))

-- A task in its main loop.
abbrev pub entered_task : Answers → PlayTask → PlayTask
entered_task answers task = record task {
  state = gst_task_state_playing;
  loop = answers.loop;
  locked = false;
}

reports-ne-runs : {result : TaskResult} → reports result ≢ runs
reports-ne-runs e = cc

entered_task_lem :
    (answers : Answers) (task playing : PlayTask) (entered : List Call)
    → handle_play_task answers enters task ≡ returns (playing, entered, runs)
    → entered_task answers task ≡ playing
unfolding handle_play_task
entered_task_lem answers task playing entered e = elim (Bool-cases task.locked) [
  | inl held ↦
      let known : handle_play_task answers enters task ≡ waits = rw (handle_play_task, held) refl in
      absurd (waits-ne-returns known e)
  | inr free ↦ elim (Bool-cases (task.state == gst_task_state_cancel)) [
    | inl canceled ↦
        let parted = record task { locked = false } in
        let calls = call_back task err_canceled in
        let known : handle_play_task answers enters task ≡ returns (parted, calls, reports fail) =
          rw (handle_play_task, free, canceled) refl in
        absurd (
          reports-ne-runs
            (ap (λ (r : PlayTask × List Call × Phase). r.2) (returns-injective (sym known ∙ e))))
    | inr goes_on ↦
        let parted = entered_task answers task in
        let calls = signal_watch answers.bus ∷ [] in
        let known : handle_play_task answers enters task ≡ returns (parted, calls, runs) =
          rw (handle_play_task, free, goes_on) refl in
        ap (λ (r : PlayTask × List Call × Phase). r.0) (returns-injective (sym known ∙ e))
  ]
]

end_of_stream-ending_iff :
    (task : PlayTask) (play_type : PlayType)
    → ((end_of_stream task play_type ≡ ending task.pipeline task.loop) ↔ EndsPlay eos play_type)
      × ((quits (end_of_stream task play_type) ≡ true) ↔ EndsPlay eos play_type)
end_of_stream-ending_iff task single =
    ((λ e. inr (refl, refl), λ e. refl), (λ e. inr (refl, refl), λ e. refl))
end_of_stream-ending_iff task looped = ((λ e. cc, λ e. ground arith), (λ e. cc, λ e. ground arith))

cb_message-ending_iff :
    (message : Message) (task : PlayTask)
    → ((cb_message message task ≡ ending task.pipeline task.loop) ↔ EndsPlay message task.play_type)
      × ((quits (cb_message message task) ≡ true) ↔ EndsPlay message task.play_type)
unfolding cb_message
cb_message-ending_iff error task = ((λ e. inl refl, λ e. refl), (λ e. inl refl, λ e. refl))
cb_message-ending_iff eos task = end_of_stream-ending_iff task task.play_type
cb_message-ending_iff clock_lost task = ((λ e. cc, λ e. ground arith), (λ e. cc, λ e. ground arith))
cb_message-ending_iff other task = ((λ e. cc, λ e. ground arith), (λ e. cc, λ e. ground arith))
cb_message-ending_iff (buffering percent) task =
    ((λ e. ground arith, λ e. ground arith), (λ e. ground arith, λ e. ground arith))

-- A worker that has entered the main loop of a task next runs exactly this loop and then, on the task as
-- it has left it, releases the loop, the bus and the pipeline, and leaves the task idle without them. A
-- message for this task, whatever its state has become meanwhile, sets the same pipeline to READY and
-- quits the same loop, and makes no other call, exactly if it is an error, or the end of the stream of a
-- task that is played once; no other message quits any loop.
pub cb_message-handle_play_task :
    (answers : Answers) (task playing : PlayTask) (entered : List Call) (message : Message)
    (state : ℕ)
    → handle_play_task answers enters task ≡ returns (playing, entered, runs)
    → (handle_play_task answers runs playing
        ≡ returns (
          record task { pipeline = 0; loop = 0; state = gst_task_state_idle; locked = false },
          leaving answers task.pipeline,
          succeeds,
        ))
      × ((cb_message message (record playing { state = state }) ≡ ending task.pipeline answers.loop)
          ↔ EndsPlay message task.play_type)
      × ((quits (cb_message message (record playing { state = state })) ≡ true)
          ↔ EndsPlay message task.play_type)
unfolding handle_play_task
cb_message-handle_play_task answers task playing entered message state e =
    let now = record (entered_task answers task) { state = state } in
    let (ends, quits_a_loop) = cb_message-ending_iff message now in
    rw⁻¹ (entered_task_lem answers task playing entered e) (refl, ends, quits_a_loop)
