-- ===== src/ThreadPool/Box.antt =====
-- The pool as a box for one job, and what the steps of threads do to it.
use mpegts_reader.Common.{
  ℕ, ◌+◌, ◌%◌, ◌≡◌, ◌≢◌, refl, sym, ap, not, ◌||◌, Bool-cases, ==_iff, ◌∙◌, inl, inr, Bool, true,
  false, ◌==◌, ltb, List, [], ◌∷◌, length, length-set, get_elem?, get_elem?-set_self,
  get_elem?-set_ne, set, Option, none, some, some-injective, arith,
}
use mpegts_reader.Common.Outcome.{done, fault, checked}
use mpegts_reader.Common.Outcome.Ends.{Ends, if-Ends, >>=-Ends_then}
use mpegts_reader.Common.Integers.{ℤ, pos, negsuc}
use mpegts_reader.ThreadPool.{
  ThreadPool, TaskContainer, task_state_idle, task_state_run, load_container, store_container,
  submit_locked, thread_pool_submit, next_task, finish_task,
}
use mpegts_reader.ThreadPool.Steps.{
  IsQueue, submitted_container, submit_locked_free, submit_locked_full, submit_locked-IsQueue,
}
use mpegts_reader.ThreadPool.Queue.{next_task_lem, taken_task-IsQueue}

-- What a client asks for, and what a worker finds in a container.
pub record Job : Type 0 where
  pub task : ℕ
  pub callback : ℕ
  pub delay : ℤ

abbrev pub job_of : TaskContainer → Job
job_of c = record { task = c.task; callback = c.callback; delay = c.delay }

-- The pool as a box: no job, or one in an IDLE container at `to_take`.
pub data Box (pool : ThreadPool) : List Job → Type 0 where
  vacant : IsQueue pool → pool.size ≡ 0 → Box pool []
  holding :
      IsQueue pool
      → (c : TaskContainer) → pool.size ≡ 1
      → get_elem? pool.tasks (pool.to_take % 16) ≡ some c
      → c.state ≡ task_state_idle
      → Box pool (job_of c ∷ [])

-- What the result of `thread_pool_submit` says of the box.
unfoldable pub Submits : List Job → Job → ThreadPool × ℤ → Type 0
Submits jobs job (pool, pos id) = (jobs ≡ []) × Box pool (job ∷ [])
Submits jobs job (pool, negsuc n) = Box pool jobs

-- What the worker finds that takes a task.
unfoldable pub Takes : List Job → Option (ThreadPool × ℕ × Bool) → Type 0
Takes jobs none = Unit
Takes jobs (some (pool, index, true)) =
    (c : TaskContainer) × (get_elem? pool.tasks index ≡ some c)
    × (jobs ≡ job_of c ∷ [])
    × Box pool []
Takes jobs (some (pool, index, false)) = ⊥

submit_locked-Submits :
    (pool : ThreadPool) (job : Job) (jobs : List Job)
    → Box pool jobs
    → Ends (Submits jobs job) (submit_locked pool job.task job.callback job.delay)
unfolding Submits
submit_locked-Submits pool job jobs (vacant q none_waits) =
    let c = submitted_container pool job.task job.callback job.delay in
    let i = pool.to_put % 16 in
    let filled = submit_locked_free pool job.task job.callback job.delay q none_waits in
    let after : ThreadPool = record pool { tasks = set pool.tasks i c; to_put = i + 1; size = 1 } in
    let q' = submit_locked-IsQueue pool after job.task job.callback job.delay (pos i) q filled in
    let same : pool.to_put ≡ pool.to_take = ground (arith, q.indexed, none_waits) in
    let there : get_elem? after.tasks i ≡ some c =
      get_elem?-set_self pool.tasks i c (omega (arith, q.tasks)) in
    rw filled
      (refl, holding q' c refl (ap (λ n. get_elem? after.tasks (n % 16)) (sym same) ∙ there) refl)
submit_locked-Submits pool job jobs (holding q c one_waits at idle) =
    rw (submit_locked_full pool job.task job.callback job.delay q one_waits)
      (holding q c one_waits at idle)

pub thread_pool_submit-Submits :
    (locking : ℕ) (pool : ThreadPool) (job : Job) (jobs : List Job)
    → Box pool jobs
    → Ends (Submits jobs job) (thread_pool_submit locking pool job.task job.callback job.delay)
unfolding thread_pool_submit Submits
thread_pool_submit-Submits locking pool job jobs b =
    elim (Bool-cases (job.task == 0 || not (locking == 0))) [
      | inl refuses ↦ rw (thread_pool_submit, refuses) b
      | inr goes_on ↦ rw (thread_pool_submit, goes_on) (submit_locked-Submits pool job jobs b)
    ]

pub next_task-Takes :
    (pool : ThreadPool) (jobs : List Job) → Box pool jobs → Ends (Takes jobs) (next_task pool)
unfolding next_task Takes
next_task-Takes pool jobs (vacant q none_waits) = rw (next_task, none_waits) tt
next_task-Takes pool jobs (holding q c one_waits at idle) =
    let i = pool.to_take % 16 in
    let runs : TaskContainer = record c { state = task_state_run } in
    let next : pool.to_put ≡ i + 1 = ground (arith, q.indexed, one_waits) in
    let q' = taken_task-IsQueue pool c q next in
    let there : get_elem? (set pool.tasks i runs) i ≡ some runs =
      get_elem?-set_self pool.tasks i runs (omega (arith, q.tasks)) in
    rw (next_task_lem pool c q one_waits at, idle) (runs, there, refl, vacant (rw idle at q') refl)

-- The end of a run writes IDLE into a container, which the waiting one has already.
finished-Box :
    (pool : ThreadPool) (index : ℕ) (d : TaskContainer) (jobs : List Job)
    → Box pool jobs
    → get_elem? pool.tasks index ≡ some d
    → Box (record pool { tasks = set pool.tasks index (record d { state = task_state_idle }) }) jobs
finished-Box pool index d jobs (vacant q none_waits) there =
    let q' : IsQueue
        (record pool { tasks = set pool.tasks index (record d { state = task_state_idle }) }) =
      record {
        tasks = length-set pool.tasks index _ ∙ q.tasks;
        to_take = q.to_take;
        indexed = q.indexed;
      } in
    vacant q' none_waits
finished-Box pool index d jobs (holding q c one_waits at idle) there =
    let i = pool.to_take % 16 in
    let ended : TaskContainer = record d { state = task_state_idle } in
    let q' : IsQueue (record pool { tasks = set pool.tasks index ended }) = record {
      tasks = length-set pool.tasks index ended ∙ q.tasks;
      to_take = q.to_take;
      indexed = q.indexed;
    } in
    elim (Bool-cases (index == i)) [
      | inl same ↦
          let here : index ≡ i = (==_iff index i).0 same in
          let is_c : d ≡ c = some-injective _ _ (sym there ∙ ap (get_elem? pool.tasks) here ∙ at) in
          let restored : ended ≡ c =
            ap (λ (x : TaskContainer). record x { state = task_state_idle }) is_c
            ∙ ap (λ s. record c { state = s }) (sym idle) in
          let stands : get_elem? (set pool.tasks index ended) i ≡ some c =
            ap (λ n. get_elem? (set pool.tasks n ended) i) here
            ∙ get_elem?-set_self pool.tasks i ended (omega (arith, q.tasks))
            ∙ ap some restored in
          holding q' c one_waits stands idle
      | inr other ↦
          let apart : index ≢ i = λ e. ground (arith, other, e) in
          holding q' c one_waits (get_elem?-set_ne pool.tasks index i ended apart ∙ at) idle
    ]

load_container-Ends :
    (tasks : List TaskContainer) (index : ℕ) (found : Option TaskContainer)
    → get_elem? tasks index ≡ found
    → Ends (λ d. get_elem? tasks index ≡ some d) (checked found)
load_container-Ends tasks index none e = tt
load_container-Ends tasks index (some d) e = e

pub finish_task-Box :
    (pool : ThreadPool) (index : ℕ) (jobs : List Job)
    → Box pool jobs
    → Ends (λ pool'. Box pool' jobs) (finish_task pool index)
unfolding finish_task
finish_task-Box pool index jobs b =
    let Kept = λ (after : ThreadPool). Box after jobs in
    >>=-Ends_then Kept (λ d. get_elem? pool.tasks index ≡ some d) (load_container pool.tasks index)
      _ (load_container-Ends pool.tasks index (get_elem? pool.tasks index) refl)
      λ d there.
        let ended : TaskContainer = record d { state = task_state_idle } in
        >>=-Ends_then Kept (λ tasks. Box (record pool { tasks = tasks }) jobs)
          (store_container pool.tasks index ended) (λ tasks. done (record pool { tasks = tasks }))
          (if-Ends (λ tasks. Box (record pool { tasks = tasks }) jobs)
            (ltb index (length pool.tasks)) (done (set pool.tasks index ended)) fault
            (finished-Box pool index d jobs b there) tt)
          λ tasks after. after

pub Box-size : {pool : ThreadPool} {jobs : List Job} → Box pool jobs → length jobs ≡ pool.size
Box-size (vacant q none_waits) = sym none_waits
Box-size (holding q c one_waits at idle) = sym one_waits
