-- ===== src/ThreadPool/Balance.antt =====
-- Clients and workers on one pool, in any order: how many jobs are accepted, run and reported.
use mpegts_reader.Common.{
  ℕ, ◌+◌, ◌≡◌, refl, ap, Bool, true, false, ◌==◌, if◌then◌else◌, List, [], ◌∷◌, ◌++◌, length,
  length-append, All, get_elem?, get_elem?-All, set, All-set, All-replicate, sum_by, sum_by-append,
  sum_by-set, sum_by-replicate, Option, none, some, arith,
}
use mpegts_reader.Common.Outcome.{done, fault}
use mpegts_reader.Common.Outcome.Ends.{Ends, Ends-done, if-Ends, >>=-Ends, >>=-Ends_then}
use mpegts_reader.Common.Integers.{ℤ, pos, negsuc, is_positive}
use mpegts_reader.ThreadPool.{
  ThreadPool, TaskResult, load_container, thread_pool_submit, next_task, finish_task,
}
use mpegts_reader.ThreadPool.Queue.{thread_pool_new-IsQueue}
use mpegts_reader.ThreadPool.Box.{
  Job, Box, vacant, Submits, Takes, thread_pool_submit-Submits, next_task-Takes, finish_task-Box,
  Box-size,
}
use mpegts_reader.ThreadPool.Workers.{
  Phase, waits, delays, runs, reports, ends, fails, locked_out, Event, sleeps, handles, calls_back,
  take_up, handle_task, Threads, thread_pool_start,
}

-- A worker with a job that its handler has not seen, and one that has to report.
abbrev pub busy : Phase → ℕ
busy waits = 0
busy (delays index) = 1
busy (runs index) = 1
busy (reports index result) = 0
busy (ends index) = 0
busy (fails index) = 0
busy locked_out = 0

abbrev pub reporting : Phase → ℕ
reporting waits = 0
reporting (delays index) = 0
reporting (runs index) = 0
reporting (reports index result) = 1
reporting (ends index) = 0
reporting (fails index) = 0
reporting locked_out = 0

-- No worker that met a container which is not IDLE.
abbrev pub IsRegular : Phase → Type 0
IsRegular waits = Unit
IsRegular (delays index) = Unit
IsRegular (runs index) = Unit
IsRegular (reports index result) = Unit
IsRegular (ends index) = Unit
IsRegular (fails index) = ⊥
IsRegular locked_out = ⊥

-- The calls of handlers, and of callbacks.
abbrev pub handled : Event → ℕ
handled (sleeps delay) = 0
handled (handles handler task) = 1
handled (calls_back callback result task) = 0

abbrev pub called : Event → ℕ
called (sleeps delay) = 0
called (handles handler task) = 0
called (calls_back callback result task) = 1

-- A step of a worker moves one job on, or none.
abbrev Balanced : List Job → Phase → ThreadPool × List Event × Phase → Type 0
Balanced jobs phase (pool, events, next) =
    (left : List Job) × Box pool left
    × IsRegular next
    × (length jobs + busy phase ≡ sum_by handled events + (length left + busy next))
    × (sum_by handled events + reporting phase ≡ sum_by called events + reporting next)

take_up-Balanced :
    (pool : ThreadPool) (jobs : List Job) (taken : Option (ThreadPool × ℕ × Bool))
    → Box pool jobs
    → Takes jobs taken
    → Ends (Balanced jobs waits) (take_up pool taken)
unfolding Takes
take_up-Balanced pool jobs none b h = (jobs, b, tt, omega arith, refl)
take_up-Balanced pool jobs (some (taken, index, true)) b (c, at, one, b') =
    ([], b', tt, omega (arith, ap length one), refl)
take_up-Balanced pool jobs (some (taken, index, false)) b h = absurd h

sleeps-Balanced :
    (pool : ThreadPool) (jobs : List Job) (index : ℕ) (sleep : Bool) (delay : ℤ)
    → Box pool jobs
    → Balanced jobs (delays index) (pool, if sleep then sleeps delay ∷ [] else [], runs index)
sleeps-Balanced pool jobs index true delay b = (jobs, b, tt, omega arith, refl)
sleeps-Balanced pool jobs index false delay b = (jobs, b, tt, omega arith, refl)

handle_task-Balanced :
    (answer : TaskResult) (phase : Phase) (pool : ThreadPool) (jobs : List Job)
    → IsRegular phase
    → Box pool jobs
    → Ends (Balanced jobs phase) (handle_task answer phase pool)
unfolding handle_task
handle_task-Balanced answer waits pool jobs r b =
    >>=-Ends_then (Balanced jobs waits) (Takes jobs) (next_task pool) (take_up pool)
      (next_task-Takes pool jobs b) (λ taken h. take_up-Balanced pool jobs taken b h)
handle_task-Balanced answer (delays index) pool jobs r b =
    >>=-Ends (Balanced jobs (delays index)) (load_container pool.tasks index) _
      (λ c. sleeps-Balanced pool jobs index (is_positive c.delay) c.delay b)
handle_task-Balanced answer (runs index) pool jobs r b =
    >>=-Ends (Balanced jobs (runs index)) (load_container pool.tasks index) _ (λ c.
      if-Ends (Balanced jobs (runs index)) (c.handler == 0) fault _ tt
        (jobs, b, tt, omega arith, refl))
handle_task-Balanced answer (reports index result) pool jobs r b =
    >>=-Ends (Balanced jobs (reports index result)) (load_container pool.tasks index) _ (λ c.
      if-Ends (Balanced jobs (reports index result)) (c.callback == 0) fault _ tt
        (jobs, b, tt, omega arith, refl))
handle_task-Balanced answer (ends index) pool jobs r b =
    >>=-Ends_then (Balanced jobs (ends index)) (λ p. Box p jobs) (finish_task pool index) _
      (finish_task-Box pool index jobs b) (λ p b'. (jobs, b', tt, omega arith, refl))
handle_task-Balanced answer (fails index) pool jobs r b = absurd r
handle_task-Balanced answer locked_out pool jobs r b = absurd r

-- What clients and workers have done to a pool with its threads: the jobs that were accepted, and what the
-- workers did, both in their order.
pub data Runs : Threads → List Job → List Event → Type 0 where
  begun : (pool_size handler : ℕ) → Runs (thread_pool_start pool_size handler) [] []
  accepted :
      {threads : Threads} {pool : ThreadPool} {jobs : List Job} {events : List Event} (locking : ℕ)
      (job : Job) (id : ℕ)
      → Runs threads jobs events
      → thread_pool_submit locking threads.pool job.task job.callback job.delay
        ≡ done (pool, pos id)
      → Runs (record threads { pool = pool }) (jobs ++ (job ∷ [])) events
  refused :
      {threads : Threads} {pool : ThreadPool} {jobs : List Job} {events : List Event} (locking : ℕ)
      (job : Job) (n : ℕ)
      → Runs threads jobs events
      → thread_pool_submit locking threads.pool job.task job.callback job.delay
        ≡ done (pool, negsuc n)
      → Runs (record threads { pool = pool }) jobs events
  worked :
      {threads : Threads} {pool : ThreadPool} {jobs : List Job} {events more : List Event} (k : ℕ)
      (answer : TaskResult) (phase next : Phase)
      → Runs threads jobs events
      → get_elem? threads.workers k ≡ some phase
      → handle_task answer phase threads.pool ≡ done (pool, more, next)
      → Runs (record { pool = pool; workers = set threads.workers k next }) jobs (events ++ more)

record IsBalanced (threads : Threads) (jobs : List Job) (events : List Event) : Type 0 where
  pub waiting : List Job
  pub box : Box threads.pool waiting
  pub regular : All IsRegular threads.workers
  pub accepted_all :
      length jobs ≡ sum_by handled events + (length waiting + sum_by busy threads.workers)
  pub handled_all : sum_by handled events ≡ sum_by called events + sum_by reporting threads.workers

Runs-IsBalanced :
    {threads : Threads} {jobs : List Job} {events : List Event}
    → Runs threads jobs events
    → IsBalanced threads jobs events
unfolding Submits thread_pool_start
Runs-IsBalanced (begun pool_size handler) = record {
  waiting = [];
  box = vacant (thread_pool_new-IsQueue handler) refl;
  regular = All-replicate IsRegular pool_size waits tt;
  accepted_all = omega (arith, sum_by-replicate busy pool_size waits refl);
  handled_all = omega (arith, sum_by-replicate reporting pool_size waits refl);
}
Runs-IsBalanced (accepted {threads} {pool} {jobs} {events} locking job id h e) =
    let s = Runs-IsBalanced h in
    let (empty, b') =
      Ends-done (Submits s.waiting job) _
        (thread_pool_submit-Submits locking threads.pool job s.waiting s.box) e in
    record {
      waiting = job ∷ [];
      box = b';
      regular = s.regular;
      accepted_all = omega (arith, s.accepted_all, ap length empty, length-append jobs (job ∷ []));
      handled_all = s.handled_all;
    }
Runs-IsBalanced (refused {threads} {pool} {jobs} {events} locking job n h e) =
    let s = Runs-IsBalanced h in
    record {
      waiting = s.waiting;
      box =
          Ends-done (Submits s.waiting job) _
            (thread_pool_submit-Submits locking threads.pool job s.waiting s.box) e;
      regular = s.regular;
      accepted_all = s.accepted_all;
      handled_all = s.handled_all;
    }
Runs-IsBalanced (worked {threads} {pool} {jobs} {events} {more} k answer phase next h at e) =
    let s = Runs-IsBalanced h in
    let (left, b', r, moved, told) =
      Ends-done (Balanced s.waiting phase) _
        (handle_task-Balanced answer phase threads.pool s.waiting
          (get_elem?-All IsRegular threads.workers k s.regular at) s.box)
        e in
    let busy_now = sum_by-set busy threads.workers k next at in
    let reporting_now = sum_by-set reporting threads.workers k next at in
    let handled_now = sum_by-append handled events more in
    let called_now = sum_by-append called events more in
    record {
      waiting = left;
      box = b';
      regular = All-set IsRegular threads.workers k next s.regular r;
      accepted_all = omega (arith, s.accepted_all, moved, busy_now, handled_now);
      handled_all = omega (arith, s.handled_all, told, reporting_now, handled_now, called_now);
    }

-- However clients and workers take their turns on a pool, and whatever the handlers answer: the number of
-- jobs that were accepted is that of the calls of handlers, and the size of the pool, and the number of
-- workers that have taken a job and are in front of their handler; the number of calls of handlers is that
-- of the calls of callbacks, and the number of workers in front of their callback; and no worker has met a
-- container that is not IDLE.
pub Runs_lem :
    {threads : Threads} {jobs : List Job} {events : List Event}
    → Runs threads jobs events
    → (length jobs ≡ sum_by handled events + (threads.pool.size + sum_by busy threads.workers))
      × (sum_by handled events ≡ sum_by called events + sum_by reporting threads.workers)
      × All IsRegular threads.workers
Runs_lem {threads} h =
    let s = Runs-IsBalanced h in
    (omega (arith, s.accepted_all, Box-size s.box), s.handled_all, s.regular)
