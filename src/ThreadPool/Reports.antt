-- ===== src/ThreadPool/Reports.antt =====
-- Whose callback a worker calls: the container is read again when the run is over.
use mpegts_reader.Common.{
  ℕ, ◌+◌, ◌*◌, ◌/◌, ◌%◌, ◌<◌, ◌≡◌, ◌≢◌, refl, ap, ◌∙◌, inl, inr, Bool, true, false, Bool-cases,
  ==_iff, ◌==◌, List, [], ◌∷◌, ◌++◌, length, length-append, get_elem?, get_elem?_lt,
  get_elem?-set_self, get_elem?-set_ne, get_elem?-append_left, get_elem?-append_length, Option,
  none, some, arith, set, if◌then◌else◌,
}
use mpegts_reader.Common.Outcome.{Outcome, done, fault, holds_of_result}
use mpegts_reader.Common.Integers.{pos, negsuc}
use mpegts_reader.ThreadPool.{ThreadPool, TaskContainer, TaskResult, task_state_idle, next_task}
use mpegts_reader.ThreadPool.Steps.{
  IsQueue, Reachable, submitted_container, thread_pool_submit-IsQueue,
}
use mpegts_reader.ThreadPool.Queue.{
  taken_task, taken_task-IsQueue, next_task_lem, no_task, next_task-IsQueue, finish_task-IsQueue,
  Reachable-IsQueue,
}
use mpegts_reader.ThreadPool.Box.{Job, job_of}
use mpegts_reader.ThreadPool.Workers.{Phase, reports, ends, Event, calls_back, handle_task}
use mpegts_reader.ThreadPool.Kept.{
  Since, now, accepted, refused, took, ended, HasJob, Restated, taken_task-Restated,
  thread_pool_submit-Effect, next_task-Restated, finish_task-Restated,
}

-- Of `job`, taken from container `i`, and the jobs accepted since, the container has the last one whose
-- number is a multiple of 16.
record Keeps (i : ℕ) (job : Job) (pool : ThreadPool) (jobs : List Job) : Type 0 where
  pub queue : IsQueue pool
  pub place : pool.to_put % 16 ≡ (i + 1 + length jobs) % 16
  pub owner : Job
  pub owned : get_elem? (job ∷ jobs) (length jobs / 16 * 16) ≡ some owner
  pub has : HasJob pool.tasks i owner

Restated-Keeps :
    {i : ℕ} {job : Job} {pool pool' : ThreadPool} {jobs : List Job}
    → IsQueue pool'
    → Restated pool pool'
    → Keeps i job pool jobs
    → Keeps i job pool' jobs
Restated-Keeps {i} q (same, kept) k = record {
  queue = q;
  place = ap (λ n. n % 16) same ∙ k.place;
  owner = k.owner;
  owned = k.owned;
  has = kept i k.owner k.has;
}

submit-Keeps :
    (next : Job) {i : ℕ} {job : Job} {pool pool' : ThreadPool} {jobs : List Job}
    → i < 16
    → IsQueue pool'
    → pool'.tasks
      ≡ set pool.tasks
          (pool.to_put % 16)
          (submitted_container pool next.task next.callback next.delay)
    → pool'.to_put ≡ pool.to_put % 16 + 1
    → Keeps i job pool jobs
    → Keeps i job pool' (jobs ++ (next ∷ []))
submit-Keeps next {i} {job} {pool} {pool'} {jobs} below q filled follows k =
    let c = submitted_container pool next.task next.callback next.delay in
    let n = length jobs in
    let longer : length (jobs ++ (next ∷ [])) ≡ n + 1 = length-append jobs (next ∷ []) in
    let place : pool'.to_put % 16 ≡ (i + 1 + length (jobs ++ (next ∷ []))) % 16 =
      omega (arith, k.place, follows, longer) in
    let all : List Job = job ∷ jobs in
    elim (Bool-cases ((n + 1) % 16 == 0)) [
      | inl around ↦
          let turn : (n + 1) % 16 ≡ 0 = (==_iff _ 0).0 around in
          let here : pool.to_put % 16 ≡ i = omega (arith, k.place, turn, below) in
          let last : length (jobs ++ (next ∷ [])) / 16 * 16 ≡ length all =
            omega (arith, longer, turn) in
          record {
            queue = q;
            place = place;
            owner = next;
            owned =
                ap (get_elem? (all ++ (next ∷ []))) last ∙ get_elem?-append_length all (next ∷ []);
            has = (
              c,
              ap (λ l. get_elem? l i) filled
                  ∙ ap (λ m. get_elem? (set pool.tasks m c) i) here
                  ∙ get_elem?-set_self pool.tasks i c (omega (arith, k.queue.tasks, below)),
              refl,
            );
          }
      | inr within ↦
          let turn : (n + 1) % 16 ≢ 0 = λ e. ground (arith, within, e) in
          let apart : pool.to_put % 16 ≢ i = λ e. omega (arith, k.place, turn, below, e) in
          let same : length (jobs ++ (next ∷ [])) / 16 * 16 ≡ n / 16 * 16 =
            omega (arith, longer, turn) in
          let (d, at, is) = k.has in
          record {
            queue = q;
            place = place;
            owner = k.owner;
            owned =
                ap (get_elem? (all ++ (next ∷ []))) same
                ∙ get_elem?-append_left all (next ∷ []) (n / 16 * 16) k.owned;
            has = (
              d,
              ap (λ l. get_elem? l i) filled
                  ∙ get_elem?-set_ne pool.tasks (pool.to_put % 16) i c apart
                  ∙ at,
              is,
            );
          }
    ]

Since-Keeps :
    {i : ℕ} {job : Job} {start pool : ThreadPool} {jobs : List Job}
    → i < 16
    → Keeps i job start []
    → Since start pool jobs
    → Keeps i job pool jobs
Since-Keeps below k now = k
Since-Keeps below k (accepted {pool} {pool'} locking job id s e) =
    let k' = Since-Keeps below k s in
    let (filled, follows) = thread_pool_submit-Effect locking pool pool' job (pos id) k'.queue e in
    submit-Keeps job below
      (thread_pool_submit-IsQueue locking pool pool' job.task job.callback job.delay (pos id)
        k'.queue e)
      filled follows k'
Since-Keeps below k (refused {pool} {pool'} locking job n s e) =
    let k' = Since-Keeps below k s in
    rw (thread_pool_submit-Effect locking pool pool' job (negsuc n) k'.queue e) k'
Since-Keeps below k (took {pool} {pool'} index run s e) =
    let k' = Since-Keeps below k s in
    Restated-Keeps (next_task-IsQueue pool pool' index run k'.queue e)
      (next_task-Restated pool pool' index run k'.queue e) k'
Since-Keeps below k (ended {pool} {pool'} index s e) =
    let k' = Since-Keeps below k s in
    Restated-Keeps (finish_task-IsQueue pool pool' index k'.queue e)
      (finish_task-Restated pool pool' index e) k'

-- What the worker has that goes on to run a task.
abbrev Starts : ThreadPool → Option (ThreadPool × ℕ × Bool) → Type 0
Starts pool none = Unit
Starts pool (some (start, i, false)) = Unit
Starts pool (some (start, i, true)) =
    (i < 16) × (job : Job) × HasJob pool.tasks i job × Keeps i job start []

taken_task-Starts :
    (pool : ThreadPool) (c : TaskContainer)
    → IsQueue pool
    → pool.to_put ≡ pool.to_take % 16 + 1
    → get_elem? pool.tasks (pool.to_take % 16) ≡ some c
    → Starts pool (some (taken_task pool c))
taken_task-Starts pool c q next at =
    let q' = taken_task-IsQueue pool c q next in
    let (same, kept) = taken_task-Restated pool c at in
    let has = kept (pool.to_take % 16) (job_of c) (c, at, refl) in
    elim (Bool-cases (c.state == task_state_idle)) [
      | inl idle ↦
          let within : pool.to_take % 16 < 16 = omega arith in
          let after : pool.to_put % 16 ≡ (pool.to_take % 16 + 1 + 0) % 16 = omega (arith, next) in
          rw idle (
            within,
            job_of c,
            (c, at, refl),
            record {
              queue = rw idle at q';
              place = after;
              owner = job_of c;
              owned = refl;
              has = rw idle at has;
            },
          )
      | inr busy ↦ rw busy tt
    ]

next_task-Starts :
    (pool start : ThreadPool) (i : ℕ)
    → IsQueue pool
    → next_task pool ≡ done (some (start, i, true))
    → Starts pool (some (start, i, true))
unfolding next_task
next_task-Starts pool start i q e = elim q.indexed [
  | inl (none_waits, same) ↦
      let known : next_task pool ≡ done none = rw (next_task, none_waits) refl in
      absurd (no_task (next_task pool) known e)
  | inr (one_waits, next) ↦
      let (c, at) = get_elem?_lt pool.tasks (pool.to_take % 16) (omega (arith, q.tasks)) in
      holds_of_result (Starts pool) (next_task_lem pool c q one_waits at)
        (taken_task-Starts pool c q next at) e
]

-- The callback of a job with a result.
abbrev pub report : ThreadPool → ℕ → TaskResult → Job → Outcome (ThreadPool × List Event × Phase)
report pool i result job =
    if job.callback == 0
    then fault
    else done (pool, calls_back job.callback result job.task ∷ [], ends i)

-- A worker takes a task from container `i` to run it. When its handler has returned, whatever the threads
-- have done `Since`, the callback it calls and the task it passes are those of the last job whose number
-- is a multiple of 16, in the list of its own job and of the jobs that `thread_pool_submit` has accepted
-- since: its own while there are less than 16 of those, and after the sixteenth those of another job.
pub handle_task-Since :
    {pool start later : ThreadPool} {jobs : List Job} (i : ℕ) (answer result : TaskResult)
    → Reachable pool
    → next_task pool ≡ done (some (start, i, true))
    → Since start later jobs
    → (job owner : Job) × HasJob pool.tasks i job
      × (get_elem? (job ∷ jobs) (length jobs / 16 * 16) ≡ some owner)
      × (handle_task answer (reports i result) later ≡ report later i result owner)
unfolding handle_task
handle_task-Since {pool} {start} {later} {jobs} i answer result reachable e s =
    let (below, job, had, k) : (i < 16)
        × (job : Job) × HasJob pool.tasks i job
        × Keeps i job start [] =
      next_task-Starts pool start i (Reachable-IsQueue reachable) e in
    let k' = Since-Keeps below k s in
    let (c, at, is) = k'.has in
    (job, k'.owner, had, k'.owned, rw (handle_task, at) (ap (report later i result) is))
