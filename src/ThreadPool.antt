-- ===== src/ThreadPool.antt =====
-- The task queue of thread_pool.c: a ring of 16 containers, `thread_pool_submit` on one side and the
-- workers of `handle_task` on the other. Each function here is what the code does while it holds the lock.
pub mod Steps
pub mod Queue
pub mod Box
pub mod Mailbox
pub mod Workers
pub mod Kept
pub mod Reports
pub mod Work
pub mod Balance
use mpegts_reader.Common.{
  ℕ, zero, ◌+◌, ◌-◌, Bool, true, false, ◌==◌, ltb, if◌then◌else◌, ◌||◌, not, List, length,
  get_elem?, set, replicate, Option, none, some, bit_and,
}
use mpegts_reader.Common.Words.{u8}
use mpegts_reader.Common.Outcome.{Outcome, done, fault, checked, ◌>>=◌}
use mpegts_reader.Common.Integers.{ℤ, pos, negsuc, ◌⊖◌, ◌+ℤ◌, is_positive}

abbrev pub task_queue_size : ℕ
task_queue_size = 16

abbrev pub queue_indx_msk : ℕ
queue_indx_msk = 0xF

abbrev pub task_state_idle : ℕ
task_state_idle = 0

abbrev pub task_state_run : ℕ
task_state_run = 1

-- `task_result_t`
pub data TaskResult : Type 0 where
  ok fail : TaskResult

-- `task_container_t`; a pointer is its address, and 0 is NULL.
pub record TaskContainer : Type 0 where
  pub task : ℕ
  pub handler : ℕ
  pub callback : ℕ
  pub delay : ℤ
  pub state : ℕ

-- `struct thread_pool` without its workers, its lock and its condition.
pub record ThreadPool : Type 0 where
  pub handler : ℕ
  pub tasks : List TaskContainer
  pub to_put : ℕ
  pub to_take : ℕ
  pub size : ℕ

-- A container after `memset`.
abbrev pub empty_container : TaskContainer
empty_container = record { task = 0; handler = 0; callback = 0; delay = pos 0; state = 0 }

-- `thread_pool_new`, for an allocation that succeeds.
unfoldable pub thread_pool_new : ℕ → ThreadPool
thread_pool_new handler = record {
  handler = handler;
  tasks = replicate task_queue_size empty_container;
  to_put = 0;
  to_take = 0;
  size = 0;
}

-- `&pool->tasks[i]`, read and written.
abbrev pub load_container : List TaskContainer → ℕ → Outcome TaskContainer
load_container tasks i = checked (get_elem? tasks i)

abbrev pub store_container : List TaskContainer → ℕ → TaskContainer → Outcome (List TaskContainer)
store_container tasks i c = if ltb i (length tasks) then done (set tasks i c) else fault

-- `gap` after the test.
abbrev pub wrapped_gap : ℤ → ℤ
wrapped_gap gap = if is_positive gap then gap else gap +ℤ pos task_queue_size

unfoldable pub get_available : ThreadPool → ℤ
get_available pool = wrapped_gap (pool.to_put ⊖ pool.to_take) +ℤ negsuc 0

unfoldable pub is_queue_full_unsafe : ThreadPool → Bool
unfolding get_available
is_queue_full_unsafe pool = not (is_positive (get_available pool))

-- The body of `thread_pool_submit` under the lock: the pool after it, and `task_id`.
unfoldable pub submit_locked : ThreadPool → ℕ → ℕ → ℤ → Outcome (ThreadPool × ℤ)
unfolding is_queue_full_unsafe
submit_locked pool task callback time_delay =
    if is_queue_full_unsafe pool then done (pool, negsuc 0) else do
      let task_id = bit_and pool.to_put queue_indx_msk
      tasks ← store_container pool.tasks task_id record {
        task = task;
        handler = pool.handler;
        callback = callback;
        delay = time_delay;
        state = task_state_idle;
      }
      done (
        record pool { tasks = tasks; to_put = u8 (task_id + 1); size = u8 (pool.size + 1) },
        pos task_id,
      )

-- `thread_pool_submit`; `locking` is what `pthread_mutex_lock` returns.
unfoldable pub thread_pool_submit : ℕ → ThreadPool → ℕ → ℕ → ℤ → Outcome (ThreadPool × ℤ)
unfolding submit_locked
thread_pool_submit locking pool task callback time_delay =
    if task == 0 || not (locking == 0)
    then done (pool, negsuc 0)
    else submit_locked pool task callback time_delay

-- The state of the container is set to RUN, unless it is not IDLE: the worker reports FAIL then.
abbrev pub start_task : ThreadPool → ℕ → TaskContainer → Outcome (ThreadPool × ℕ × Bool)
start_task pool index container =
    if container.state == task_state_idle
    then store_container pool.tasks index (record container { state = task_state_run })
      >>= (λ tasks. done (record pool { tasks = tasks }, index, true))
    else done (pool, index, false)

-- A worker of `handle_task` with the lock and a task: the pool when it lets the lock go, the index of
-- its container, and whether it goes on to run the task or only reports FAIL.
unfoldable pub take_task : ThreadPool → Outcome (ThreadPool × ℕ × Bool)
take_task pool = do
  let index = bit_and pool.to_take queue_indx_msk
  container ← load_container pool.tasks index
  start_task (record pool { to_take = u8 (index + 1); size = pool.size - 1 }) index container

-- `handle_task` up to the run: `none` while it waits for `size`.
unfoldable pub next_task : ThreadPool → Outcome (Option (ThreadPool × ℕ × Bool))
unfolding take_task
next_task pool = if pool.size == 0 then done none else do taken ← take_task pool; done (some taken)

-- `container->state = TASK_STATE_IDLE` after the run.
unfoldable pub finish_task : ThreadPool → ℕ → Outcome ThreadPool
finish_task pool index = do
  container ← load_container pool.tasks index
  tasks ← store_container pool.tasks index (record container { state = task_state_idle })
  done (record pool { tasks = tasks })
