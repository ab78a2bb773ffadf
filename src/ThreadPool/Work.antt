-- ===== src/ThreadPool/Work.antt =====
-- A worker from one wait to the next, with nobody else at its container.
use mpegts_reader.Common.{
  ℕ, zero, suc, inl, inr, ◌≡◌, ◌≢◌, refl, ◌==◌, false, List, [], ◌∷◌, ◌++◌, get_elem?,
  get_elem?-set_self, lt-get_elem?, some, set, if◌then◌else◌, arith,
}
use mpegts_reader.Common.Outcome.{Outcome, done, ◌>>=◌}
use mpegts_reader.Common.Integers.{ℤ, pos, is_positive}
use mpegts_reader.ThreadPool.{
  ThreadPool, TaskContainer, TaskResult, task_state_idle, task_state_run, thread_pool_submit,
  finish_task,
}
use mpegts_reader.ThreadPool.Steps.{Reachable, store_lt, submitted_container}
use mpegts_reader.ThreadPool.Queue.{next_task-thread_pool_submit}
use mpegts_reader.ThreadPool.Workers.{
  Phase, waits, delays, runs, reports, ends, Event, sleeps, handles, calls_back, handle_task,
}

-- Steps of one worker, with all that it does.
unfoldable pub run_worker :
    ℕ → TaskResult → Phase → ThreadPool → Outcome (ThreadPool × List Event × Phase)
unfolding handle_task
run_worker zero answer phase pool = done (pool, [], phase)
run_worker (suc n) answer phase pool = do
  (pool1, events, phase1) ← handle_task answer phase pool
  (pool2, rest, phase2) ← run_worker n answer phase1 pool1
  done (pool2, events ++ rest, phase2)

-- The run of a task that was taken.
-- One step in front of a run.
run_worker_step :
    (n : ℕ) (answer : TaskResult) (phase : Phase) (pool : ThreadPool) {phase1 phase2 : Phase}
    {pool1 pool2 : ThreadPool} {events rest : List Event}
    → handle_task answer phase pool ≡ done (pool1, events, phase1)
    → run_worker n answer phase1 pool1 ≡ done (pool2, rest, phase2)
    → run_worker (suc n) answer phase pool ≡ done (pool2, events ++ rest, phase2)
unfolding run_worker
run_worker_step n answer phase pool e es = rw (run_worker, e, es) refl

run_taken :
    (pool : ThreadPool) (c : TaskContainer) (id : ℕ) (answer : TaskResult)
    → get_elem? pool.tasks id ≡ some c
    → c.handler ≢ 0
    → c.callback ≢ 0
    → run_worker 4 answer (delays id) pool
      ≡ done (
        record pool { tasks = set pool.tasks id (record c { state = task_state_idle }) },
        (if is_positive c.delay then sleeps c.delay ∷ [] else [])
            ++ (handles c.handler c.task ∷ calls_back c.callback answer c.task ∷ []),
        waits,
      )
unfolding run_worker handle_task finish_task
run_taken pool c id answer at handled called =
    let h : (c.handler == 0) ≡ false = ground (arith, handled) in
    let k : (c.callback == 0) ≡ false = ground (arith, called) in
    let after : ThreadPool = record pool {
      tasks = set pool.tasks id (record c { state = task_state_idle });
    } in
    let stored =
      store_lt pool.tasks id (record c { state = task_state_idle })
        (lt-get_elem? pool.tasks id at) in
    let delayed : handle_task answer (delays id) pool
        ≡ done (pool, if is_positive c.delay then sleeps c.delay ∷ [] else [], runs id) =
      rw (handle_task, at) refl in
    let handled : handle_task answer (runs id) pool
        ≡ done (pool, handles c.handler c.task ∷ [], reports id answer) =
      rw (handle_task, at, h) refl in
    let reported : handle_task answer (reports id answer) pool
        ≡ done (pool, calls_back c.callback answer c.task ∷ [], ends id) =
      rw (handle_task, at, k) refl in
    let ended : handle_task answer (ends id) pool ≡ done (after, [], waits) =
      rw (handle_task, finish_task, at, stored) refl in
    run_worker_step 3 answer (delays id) pool delayed (
      run_worker_step 2 answer (runs id) pool handled (
        run_worker_step 1 answer (reports id answer) pool reported
          (run_worker_step 0 answer (ends id) pool ended refl)))

-- A pool that threads can reach, in which no task waits, takes a task; the task, its callback and the
-- handler of the pool are not NULL. A worker that is then left alone sleeps if the delay is positive, calls
-- the handler with the task once, calls the callback with its answer and the task once, and waits again,
-- with the container IDLE as it was filled.
pub handle_task-thread_pool_submit :
    (pool : ThreadPool) (task callback : ℕ) (delay : ℤ) (answer : TaskResult)
    → Reachable pool
    → pool.size ≡ 0
    → task ≢ 0
    → pool.handler ≢ 0
    → callback ≢ 0
    → (id : ℕ) × (pool' pool'' : ThreadPool) × (thread_pool_submit 0 pool task callback delay
        ≡ done (pool', pos id))
      × (run_worker 5 answer waits pool'
          ≡ done (
            pool'',
            (if is_positive delay then sleeps delay ∷ [] else [])
                ++ (handles pool.handler task ∷ calls_back callback answer task ∷ []),
            waits,
          ))
      × (get_elem? pool''.tasks id ≡ some (submitted_container pool task callback delay))
unfolding handle_task
handle_task-thread_pool_submit pool task callback delay answer reachable empty real handled called =
    elim (next_task-thread_pool_submit pool task callback delay reachable real) [
      | inl (full, e) ↦ absurd (omega (arith, full, empty))
      | inr (free, id, pool', taken, submitted, next, at) ↦
          let c = submitted_container pool task callback delay in
          let took : handle_task answer waits pool' ≡ done (taken, [], delays id) =
            rw (handle_task, next) refl in
          (
            id,
            pool',
            record taken { tasks = set taken.tasks id c },
            submitted,
            run_worker_step 4 answer waits pool' took
                (run_taken taken (record c { state = task_state_run }) id answer at handled called),
            get_elem?-set_self taken.tasks id c (lt-get_elem? taken.tasks id at),
          )
    ]
