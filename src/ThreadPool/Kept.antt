-- ===== src/ThreadPool/Kept.antt =====
-- How long a container keeps the job of the worker that took it.
use mpegts_reader.Common.{
  ℕ, ◌+◌, ◌%◌, ◌≡◌, ◌≢◌, refl, sym, ap, not, ◌||◌, Bool-cases, ==_iff, ◌∙◌, inl, inr, Bool, ◌==◌,
  List, [], ◌∷◌, ◌++◌, get_elem?, get_elem?_lt, lt-get_elem?, get_elem?-set_self, get_elem?-set_ne,
  set, Option, none, some, some-injective, arith,
}
use mpegts_reader.Common.Outcome.{done, >>=-eq-done, done-injective, checked_done, holds_of_result}
use mpegts_reader.Common.Integers.{ℤ, pos, negsuc}
use mpegts_reader.ThreadPool.{
  ThreadPool, TaskContainer, task_state_idle, task_state_run, load_container, store_container,
  submit_locked, thread_pool_submit, next_task, finish_task,
}
use mpegts_reader.ThreadPool.Steps.{
  IsQueue, store_lt, submitted_container, submit_locked_free, submit_locked_full,
}
use mpegts_reader.ThreadPool.Queue.{taken_task, no_task, next_task_lem}
use mpegts_reader.ThreadPool.Box.{Job, job_of}

-- What threads do after the pool was `start`: the jobs that were accepted, in their order.
pub data Since (start : ThreadPool) : ThreadPool → List Job → Type 0 where
  now : Since start start []
  accepted :
      {pool pool' : ThreadPool} {jobs : List Job} (locking : ℕ) (job : Job) (id : ℕ)
      → Since start pool jobs
      → thread_pool_submit locking pool job.task job.callback job.delay ≡ done (pool', pos id)
      → Since start pool' (jobs ++ (job ∷ []))
  refused :
      {pool pool' : ThreadPool} {jobs : List Job} (locking : ℕ) (job : Job) (n : ℕ)
      → Since start pool jobs
      → thread_pool_submit locking pool job.task job.callback job.delay ≡ done (pool', negsuc n)
      → Since start pool' jobs
  took :
      {pool pool' : ThreadPool} {jobs : List Job} (index : ℕ) (run : Bool)
      → Since start pool jobs
      → next_task pool ≡ done (some (pool', index, run))
      → Since start pool' jobs
  ended :
      {pool pool' : ThreadPool} {jobs : List Job} (index : ℕ)
      → Since start pool jobs
      → finish_task pool index ≡ done pool'
      → Since start pool' jobs

-- The container at `i` has the job.
abbrev pub HasJob : List TaskContainer → ℕ → Job → Type 0
HasJob tasks i job = (c : TaskContainer) × (get_elem? tasks i ≡ some c) × (job_of c ≡ job)

-- A write of a state keeps the jobs of all containers.
HasJob-set :
    (tasks : List TaskContainer) (k s : ℕ) (d : TaskContainer) (i : ℕ) (job : Job)
    → get_elem? tasks k ≡ some d
    → HasJob tasks i job
    → HasJob (set tasks k (record d { state = s })) i job
HasJob-set tasks k s d i job there (c, at, is) = elim (Bool-cases (k == i)) [
  | inl same ↦
      let here : k ≡ i = (==_iff k i).0 same in
      let one : d ≡ c = some-injective _ _ (sym there ∙ ap (get_elem? tasks) here ∙ at) in
      let ended : TaskContainer = record d { state = s } in
      (
        ended,
        ap (λ n. get_elem? (set tasks k ended) n) (sym here)
            ∙ get_elem?-set_self tasks k ended (lt-get_elem? tasks k there),
        ap job_of one ∙ is,
      )
  | inr other ↦
      let apart : k ≢ i = λ e. ground (arith, other, e) in
      (c, get_elem?-set_ne tasks k i (record d { state = s }) apart ∙ at, is)
]

-- What a call of `thread_pool_submit` does to the containers and to `to_put`.
abbrev pub Effect : ThreadPool → Job → ThreadPool × ℤ → Type 0
Effect pool job (pool', pos id) =
    (pool'.tasks
      ≡ set pool.tasks (pool.to_put % 16)
          (submitted_container pool job.task job.callback job.delay))
    × (pool'.to_put ≡ pool.to_put % 16 + 1)
Effect pool job (pool', negsuc n) = pool' ≡ pool

pub thread_pool_submit-Effect :
    (locking : ℕ) (pool pool' : ThreadPool) (job : Job) (result : ℤ)
    → IsQueue pool
    → thread_pool_submit locking pool job.task job.callback job.delay ≡ done (pool', result)
    → Effect pool job (pool', result)
unfolding thread_pool_submit
thread_pool_submit-Effect locking pool pool' job result q e =
    elim (Bool-cases (job.task == 0 || not (locking == 0))) [
      | inl refuses ↦
          let known : thread_pool_submit locking pool job.task job.callback job.delay
              ≡ done (pool, negsuc 0) =
            rw (thread_pool_submit, refuses) refl in
          holds_of_result (Effect pool job) known refl e
      | inr goes_on ↦
          let e' : submit_locked pool job.task job.callback job.delay ≡ done (pool', result) =
            rw (thread_pool_submit, goes_on) at e in
          elim q.indexed [
            | inl (none_waits, same) ↦
                holds_of_result (Effect pool job)
                  (submit_locked_free pool job.task job.callback job.delay q none_waits)
                  (refl, refl) e'
            | inr (one_waits, next) ↦
                holds_of_result (Effect pool job)
                  (submit_locked_full pool job.task job.callback job.delay q one_waits) refl e'
          ]
    ]

-- Written into by states only, with `to_put` as it was.
abbrev pub Restated : ThreadPool → ThreadPool → Type 0
Restated pool pool' =
    (pool'.to_put ≡ pool.to_put)
    × ((i : ℕ) (job : Job) → HasJob pool.tasks i job → HasJob pool'.tasks i job)

abbrev TakenRestated : ThreadPool → Option (ThreadPool × ℕ × Bool) → Type 0
TakenRestated pool none = Unit
TakenRestated pool (some (pool', index, run)) = Restated pool pool'

pub taken_task-Restated :
    (pool : ThreadPool) (c : TaskContainer)
    → get_elem? pool.tasks (pool.to_take % 16) ≡ some c
    → Restated pool (taken_task pool c).0
taken_task-Restated pool c at = elim (Bool-cases (c.state == task_state_idle)) [
  | inl idle ↦
      rw idle
        (refl, λ i job has. HasJob-set pool.tasks (pool.to_take % 16) task_state_run c i job at has)
  | inr busy ↦ rw busy (refl, λ i job has. has)
]

pub next_task-Restated :
    (pool pool' : ThreadPool) (index : ℕ) (run : Bool)
    → IsQueue pool
    → next_task pool ≡ done (some (pool', index, run))
    → Restated pool pool'
unfolding next_task
next_task-Restated pool pool' index run q e = elim q.indexed [
  | inl (none_waits, same) ↦
      let known : next_task pool ≡ done none = rw (next_task, none_waits) refl in
      absurd (no_task (next_task pool) known e)
  | inr (one_waits, next) ↦
      let (c, at) = get_elem?_lt pool.tasks (pool.to_take % 16) (omega (arith, q.tasks)) in
      holds_of_result (TakenRestated pool) (next_task_lem pool c q one_waits at)
        (taken_task-Restated pool c at) e
]

pub finish_task-Restated :
    (pool pool' : ThreadPool) (index : ℕ)
    → finish_task pool index ≡ done pool'
    → Restated pool pool'
unfolding finish_task
finish_task-Restated pool pool' index e =
    let (c, e1, e2) = >>=-eq-done (load_container pool.tasks index) _ e in
    let (tasks, e3, e4) = >>=-eq-done (store_container pool.tasks index _) _ e2 in
    let at : get_elem? pool.tasks index ≡ some c = checked_done (get_elem? pool.tasks index) c e1 in
    let known =
      store_lt pool.tasks index (record c { state = task_state_idle })
        (lt-get_elem? pool.tasks index at) in
    let stored : tasks ≡ set pool.tasks index (record c { state = task_state_idle }) =
      done-injective tasks _ (sym e3 ∙ known) in
    let left : Restated pool (record pool { tasks = tasks }) =
      (refl, λ i job has. rw stored (HasJob-set pool.tasks index task_state_idle c i job at has)) in
    holds_of_result (Restated pool) refl left e4
