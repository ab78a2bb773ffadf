-- ===== src/ThreadPool/Workers.antt =====
-- The workers of the pool: `handle_task` from one of its steps to the next. A step is what it does under
-- the lock, or one look at its container without the lock; other threads may go on in between.
use mpegts_reader.Common.{
  ℕ, Bool, true, false, ◌==◌, if◌then◌else◌, List, [], ◌∷◌, replicate, Option, none, some,
}
use mpegts_reader.Common.Outcome.{Outcome, done, fault, ◌>>=◌}
use mpegts_reader.Common.Integers.{ℤ, is_positive}
use mpegts_reader.ThreadPool.{
  ThreadPool, TaskResult, fail, load_container, thread_pool_new, next_task, finish_task,
}

-- Where a worker stands: in front of the lock or waiting for `size`, in front of the delay, of the handler,
-- of the callback with a result, or of the reset of the state, by the index of its container; in front
-- of the callback of a container that is not IDLE; or in front of the lock that it holds already, after
-- the `continue` without a callback.
pub data Phase : Type 0 where
  waits : Phase
  delays : ℕ → Phase
  runs : ℕ → Phase
  reports : ℕ → TaskResult → Phase
  ends : ℕ → Phase
  fails : ℕ → Phase
  locked_out : Phase

-- What a worker does besides: `usleep`, by its milliseconds, the call of a handler with a task, and the call of
-- a callback with a result and a task.
pub data Event : Type 0 where
  sleeps : ℤ → Event
  handles : ℕ → ℕ → Event
  calls_back : ℕ → TaskResult → ℕ → Event

abbrev pub take_up :
    ThreadPool → Option (ThreadPool × ℕ × Bool) → Outcome (ThreadPool × List Event × Phase)
take_up pool none = done (pool, [], waits)
take_up pool (some (taken, index, true)) = done (taken, [], delays index)
take_up pool (some (taken, index, false)) = do
  container ← load_container taken.tasks index
  done (taken, [], if container.callback == 0 then locked_out else fails index)

-- One step of `handle_task`; `answer` is what the handler returns.
unfoldable pub handle_task :
    TaskResult → Phase → ThreadPool → Outcome (ThreadPool × List Event × Phase)
unfolding next_task finish_task
handle_task answer waits pool = do taken ← next_task pool; take_up pool taken
handle_task answer (delays index) pool = do
  container ← load_container pool.tasks index
  done (pool, if is_positive container.delay then sleeps container.delay ∷ [] else [], runs index)
handle_task answer (runs index) pool = do
  container ← load_container pool.tasks index
  if container.handler == 0
      then fault
      else done (pool, handles container.handler container.task ∷ [], reports index answer)
handle_task answer (reports index result) pool = do
  container ← load_container pool.tasks index
  if container.callback == 0
      then fault
      else done (pool, calls_back container.callback result container.task ∷ [], ends index)
handle_task answer (ends index) pool = do ended ← finish_task pool index; done (ended, [], waits)
handle_task answer (fails index) pool = do
  container ← load_container pool.tasks index
  if container.callback == 0
      then fault
      else done (pool, calls_back container.callback fail container.task ∷ [], waits)
handle_task answer locked_out pool = done (pool, [], locked_out)

-- The pool with its threads.
pub record Threads : Type 0 where
  pub pool : ThreadPool
  pub workers : List Phase

-- `thread_pool_new`, with the loop of `pthread_create`, for allocations and threads that succeed.
unfoldable pub thread_pool_start : ℕ → ℕ → Threads
unfolding thread_pool_new
thread_pool_start pool_size handler = record {
  pool = thread_pool_new handler;
  workers = replicate pool_size waits;
}
