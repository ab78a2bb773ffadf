-- ===== src/Examples/Queues.antt =====
-- The theorems of ThreadPool on a pool with a task.
use mpegts_reader.Common.{
  List, All, [], ◌∷◌, ◌++◌, length, set, ◌+◌, false, ◌≢◌, ℕ, ◌≡◌, ◌⊎◌, refl, true, some, arith,
  get_elem?,
}
use mpegts_reader.Common.Outcome.{Outcome, done}
use mpegts_reader.Common.Integers.{ℤ, pos, negsuc}
use mpegts_reader.ThreadPool.{
  ThreadPool, thread_pool_new, thread_pool_submit, next_task, task_state_run, ok, fail,
}
use mpegts_reader.ThreadPool.Steps.{
  submitted, Reachable, created, stepped, IsQueue, submitted_container,
}
use mpegts_reader.ThreadPool.Box.{Job}
use mpegts_reader.ThreadPool.Workers.{
  Threads, thread_pool_start, delays, runs, waits, reports, sleeps, handles, calls_back,
  handle_task,
}
use mpegts_reader.ThreadPool.Kept.{Since, HasJob}
use mpegts_reader.ThreadPool.Reports.{report, handle_task-Since}
use mpegts_reader.ThreadPool.Balance.{IsRegular, Runs, worked, Runs_lem}
use mpegts_reader.ThreadPool.Work.{run_worker, handle_task-thread_pool_submit}
use mpegts_reader.ThreadPool.Mailbox.{History, begun, accepted, History_lem}
use mpegts_reader.ThreadPool.Queue.{Reachable-IsQueue, next_task-thread_pool_submit}

abbrev fresh : ThreadPool
fresh = thread_pool_new 77

-- The pool that `thread_pool_submit` makes of a new one.
abbrev pool_of : Outcome (ThreadPool × ℤ) → ThreadPool
pool_of (done (pool, result)) = pool
pool_of other = fresh

abbrev filled : ThreadPool
filled = pool_of (thread_pool_submit 0 fresh 5 6 (pos 0))

filled-Reachable : Reachable filled
unfolding thread_pool_new thread_pool_submit
filled-Reachable = stepped fresh filled (created 77) (submitted 0 5 6 (pos 0) (pos 0) refl)

Reachable-IsQueue_example : IsQueue filled
Reachable-IsQueue_example = Reachable-IsQueue filled-Reachable

next_task-thread_pool_submit_example :
    ((fresh.size ≡ 1) × (thread_pool_submit 0 fresh 5 6 (pos 0) ≡ done (fresh, negsuc 0)))
    ⊎ ((fresh.size ≡ 0)
        × (id : ℕ) × (pool' pool'' : ThreadPool) × (thread_pool_submit 0 fresh 5 6 (pos 0)
            ≡ done (pool', pos id))
        × (next_task pool' ≡ done (some (pool'', id, true)))
        × (get_elem? pool''.tasks id
            ≡ some (record (submitted_container fresh 5 6 (pos 0)) { state = task_state_run })))
next_task-thread_pool_submit_example =
    next_task-thread_pool_submit fresh 5 6 (pos 0) (created 77) (λ e. omega (arith, e))

-- One job that is accepted, and then taken by a worker.
abbrev job : Job
job = record { task = 5; callback = 6; delay = pos 0 }

abbrev one_waits : ThreadPool
one_waits = record fresh {
  tasks = set fresh.tasks 0 (submitted_container fresh 5 6 (pos 0));
  to_put = 1;
  size = 1;
}

filled-History : History one_waits (job ∷ []) []
unfolding thread_pool_new thread_pool_submit
filled-History = accepted 0 job 0 (begun 77) refl

History_lem_example :
    ((waiting : List Job) × ((job ∷ []) ≡ [] ++ waiting) × (length waiting ≡ one_waits.size))
    × ((pool' : ThreadPool) (index : ℕ) → next_task one_waits ≢ done (some (pool', index, false)))
History_lem_example = History_lem filled-History

-- A worker has taken the job, and another one is accepted while it runs.
abbrev start : ThreadPool
start = record fresh {
  tasks =
      set fresh.tasks 0 (record (submitted_container fresh 5 6 (pos 0)) { state = task_state_run });
  to_put = 1;
  to_take = 1;
}

abbrev other : Job
other = record { task = 8; callback = 9; delay = pos 0 }

abbrev later : ThreadPool
later = record start {
  tasks = set start.tasks 1 (submitted_container start 8 9 (pos 0));
  to_put = 2;
  size = 1;
}

one_waits-Reachable : Reachable one_waits
unfolding thread_pool_new thread_pool_submit
one_waits-Reachable = stepped fresh one_waits (created 77) (submitted 0 5 6 (pos 0) (pos 0) refl)

start-next_task : next_task one_waits ≡ done (some (start, 0, true))
unfolding next_task thread_pool_new
start-next_task = refl

later-Since : Since start later (other ∷ [])
unfolding thread_pool_submit thread_pool_new
later-Since = Since.accepted 0 other 1 Since.now refl

handle_task-Since_example :
    (taken owner : Job) × HasJob one_waits.tasks 0 taken
    × (get_elem? (taken ∷ other ∷ []) 0 ≡ some owner)
    × (handle_task ok (reports 0 fail) later ≡ report later 0 fail owner)
handle_task-Since_example =
    handle_task-Since 0 ok fail one_waits-Reachable start-next_task later-Since

handle_task-thread_pool_submit_example :
    (id : ℕ) × (pool' pool'' : ThreadPool) × (thread_pool_submit 0 fresh 5 6 (pos 3)
      ≡ done (pool', pos id))
    × (run_worker 5 ok waits pool'
        ≡ done (pool'', sleeps (pos 3) ∷ handles 77 5 ∷ calls_back 6 ok 5 ∷ [], waits))
    × (get_elem? pool''.tasks id ≡ some (submitted_container fresh 5 6 (pos 3)))
unfolding thread_pool_new
handle_task-thread_pool_submit_example =
    handle_task-thread_pool_submit fresh 5 6 (pos 3) ok (created 77) refl (λ e. omega (arith, e))
      (λ e. omega (arith, e)) (λ e. omega (arith, e))

-- Two workers: the first one has taken the job, and its handler has returned.
abbrev two_workers : Threads
two_workers = record { pool = start; workers = reports 0 ok ∷ waits ∷ [] }

two_workers-Runs : Runs two_workers (job ∷ []) (handles 77 5 ∷ [])
unfolding thread_pool_start thread_pool_submit handle_task
two_workers-Runs =
    worked 0 ok (runs 0) (reports 0 ok)
      (worked 0 ok (delays 0) (runs 0)
        (worked 0 ok waits (delays 0) (Runs.accepted 0 job 0 (Runs.begun 2 77) refl) refl refl) refl
        refl)
      refl refl

Runs_lem_example : (1 ≡ 1 + (0 + 0)) × (1 ≡ 0 + 1) × All IsRegular (reports 0 ok ∷ waits ∷ [])
unfolding thread_pool_new
Runs_lem_example = Runs_lem two_workers-Runs
