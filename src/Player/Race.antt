-- ===== src/Player/Race.antt =====
-- A play that is started while a worker is about to report the end of the last one.
use mpegts_reader.Common.{
  ℕ, ◌<◌, ◌≡◌, refl, sym, ap, subst, ◌∙◌, inl, inr, true, false, Bool-cases, ◌==◌, List, [], ◌∷◌,
  length, get_elem?, get_elem?-set_self, set, set-set, length-set, some, bit_and, arith,
}
use mpegts_reader.Common.Integers.{pos}
use mpegts_reader.ThreadPool.{ThreadPool, ok}
use mpegts_reader.Player.{
  Player, PlayTask, returns, waits, task_qmsk, gst_player_stop, stop_task, gst_task_state_idle,
  gst_task_state_start, gst_task_state_cancel,
}
use mpegts_reader.Player.Calls.{
  Call, stopped, ready, object_unref, main_loop_run, main_loop_unref, parse_launch, set_state,
  main_loop_quit,
}
use mpegts_reader.Player.Play.{Request, command, gst_player_play}
use mpegts_reader.Player.Worker.{
  Phase, runs, succeeds, reports, finished, Answers, call_back, success, handle_play_task,
}
use mpegts_reader.Player.Acts.{returns-injective, waits-ne-returns}
use mpegts_reader.Player.Starts.{started_task, IsPlayer, next_slot, next_slot_lt, accepted_player}
use mpegts_reader.Player.Submit.{gst_player_play_lem}

-- What the worker leaves behind its second lock.
abbrev IsLeft : PlayTask → Type 0
IsLeft task = (task.locked ≡ false) × (task.state ≡ gst_task_state_idle)

handle_play_task-IsLeft :
    (answers : Answers) (playing task : PlayTask) (ended : List Call)
    → handle_play_task answers runs playing ≡ returns (task, ended, succeeds)
    → IsLeft task
unfolding handle_play_task
handle_play_task-IsLeft answers playing task ended e = elim (Bool-cases playing.locked) [
  | inl held ↦
      let known : handle_play_task answers runs playing ≡ waits =
        rw (handle_play_task, held) refl in
      absurd (waits-ne-returns known e)
  | inr unlocked ↦
      let parted = record playing {
        locked = false;
        pipeline = 0;
        loop = 0;
        state = gst_task_state_idle;
      } in
      let calls =
        main_loop_run playing.loop
        ∷ main_loop_unref playing.loop
        ∷ object_unref answers.bus
        ∷ set_state playing.pipeline stopped
        ∷ object_unref playing.pipeline
        ∷ [] in
      let known : handle_play_task answers runs playing ≡ returns (parted, calls, succeeds) =
        rw (handle_play_task, unlocked) refl in
      let same : parted ≡ task =
        ap (λ (r : PlayTask × List Call × Phase). r.0) (returns-injective (sym known ∙ e)) in
      subst IsLeft same (refl, refl)
]

-- The task that the player has at a slot.
abbrev pub put_task : Player → ℕ → PlayTask → Player
put_task player i task = record player { tasks = set player.tasks i task }

-- `gst_player_stop` on a task that is not idle, and on an idle one that was put into its slot.
module _ (player : Player) (id : ℕ) (task : PlayTask) (free : task.locked ≡ false) where
  stop_started :
      get_elem? player.tasks (bit_and id task_qmsk) ≡ some task
      → (task.state == gst_task_state_idle) ≡ false
      → gst_player_stop player (pos id)
        ≡ returns (
          put_task player
              (bit_and id task_qmsk)
              (record task { state = gst_task_state_cancel; locked = false }),
          set_state task.pipeline ready ∷ main_loop_quit task.loop ∷ [],
        )
  unfolding gst_player_stop stop_task
  stop_started at busy =
      let after = record task { state = gst_task_state_cancel; locked = false } in
      let calls = set_state task.pipeline ready ∷ main_loop_quit task.loop ∷ [] in
      let step : stop_task task ≡ returns (after, calls) = rw (stop_task, free, busy) refl in
      rw (gst_player_stop, at, step) refl

  stop_idle :
      bit_and id task_qmsk < length player.tasks
      → (task.state == gst_task_state_idle) ≡ true
      → gst_player_stop (put_task player (bit_and id task_qmsk) task) (pos id)
        ≡ returns (put_task player (bit_and id task_qmsk) (record task { locked = false }), [])
  unfolding gst_player_stop stop_task
  stop_idle within idle =
      let i = bit_and id task_qmsk in
      let after = record task { locked = false } in
      let step : stop_task task ≡ returns (after, []) = rw (stop_task, free, idle) refl in
      rw
        (
          gst_player_stop,
          get_elem?-set_self player.tasks i task within,
          step,
          set-set player.tasks i task after,
        )
        refl

module _ (pipeline : ℕ) (player : Player) (request : Request) (task : PlayTask)
    (is_player : IsPlayer player) (at : get_elem? player.tasks (next_slot player) ≡ some task) where
  abbrev pub started : PlayTask
  started = started_task pipeline player.id request task

  abbrev pub lost : PlayTask
  lost = record started { state = gst_task_state_idle }

  -- For a player in use with no task waiting in its pool, a uri that fits the buffer, and a worker that
  -- has left `task`, at the slot of the next play, behind its main loop and has yet to report:
  -- `gst_player_play` is accepted and returns the id of the new play, whose task has the state START.
  -- `gst_player_stop` with this id would make the task CANCEL, set its pipeline to READY and quit its
  -- loop; but the report of the old worker, `play_task_callback`, sets it to IDLE, and then the same
  -- stop changes nothing and makes no call.
  pub start_task_lost :
      (answers : Answers) (playing : PlayTask) (ended : List Call)
      → handle_play_task answers runs playing ≡ returns (task, ended, succeeds)
      → length (command request.uri) < 255
      → player.pool.size ≡ 0
      → (pool : ThreadPool) × (handle_play_task answers succeeds task
          ≡ returns (task, call_back task success, reports ok))
        × (let accepted = accepted_player pipeline request task player pool in
            (gst_player_play pipeline player request
              ≡ returns (accepted, (parse_launch (command request.uri) ∷ [], pos player.id)))
            × (get_elem? accepted.tasks (next_slot player) ≡ some started)
            × (started.state ≡ gst_task_state_start)
            × (gst_player_stop accepted (pos player.id)
                ≡ returns (
                  put_task accepted
                      (next_slot player)
                      (record started { state = gst_task_state_cancel }),
                  set_state pipeline ready ∷ main_loop_quit started.loop ∷ [],
                ))
            × (handle_play_task answers (reports ok) started ≡ returns (lost, [], finished))
            × (gst_player_stop (put_task accepted (next_slot player) lost) (pos player.id)
                ≡ returns (put_task accepted (next_slot player) lost, [])))
  unfolding handle_play_task gst_player_stop stop_task
  start_task_lost answers playing ended left short none_waits =
      let (free, idle) = handle_play_task-IsLeft answers playing task ended left in
      let i = next_slot player in
      let within : i < length player.tasks = omega (arith, is_player.tasks, next_slot_lt player) in
      let at_slot = get_elem?-set_self player.tasks i started within in
      elim (gst_player_play_lem pipeline player request task is_player at free idle short) [
        | inl (one_waits, refused) ↦ absurd (omega (arith, one_waits, none_waits))
        | inr (empty, n, pool, taken, accepts, takes, holds) ↦
            let accepted = accepted_player pipeline request task player pool in
            let still_within : i < length accepted.tasks =
              omega (arith, within, length-set player.tasks i started) in
            (
              pool,
              refl,
              (
                accepts,
                at_slot,
                refl,
                stop_started accepted player.id started refl at_slot refl,
                refl,
                stop_idle accepted player.id lost refl still_within refl,
              ),
            )
      ]
