-- ===== src/ThreadPool/Mailbox.antt =====
-- The histories of the pool: what is put in is taken out, in the same order.
use mpegts_reader.Common.{
  some-injective, ℕ, ◌≡◌, ◌≢◌, refl, sym, ap, ◌∙◌, true, false, List, [], ◌∷◌, ◌++◌, length,
  get_elem?, some,
}
use mathlib.Core.List.{append-nil}
use mpegts_reader.Common.Outcome.{done}
use mpegts_reader.Common.Outcome.Ends.{Ends-done}
use mpegts_reader.Common.Integers.{pos, negsuc}
use mpegts_reader.ThreadPool.{
  ThreadPool, TaskContainer, thread_pool_new, thread_pool_submit, next_task, finish_task,
}
use mpegts_reader.ThreadPool.Queue.{thread_pool_new-IsQueue}
use mpegts_reader.ThreadPool.Box.{
  Job, job_of, Box, vacant, Submits, Takes, thread_pool_submit-Submits, next_task-Takes,
  finish_task-Box, Box-size,
}

-- A history of the pool: the jobs that `thread_pool_submit` accepted, and those that workers took to
-- run, both in their order. Threads take their steps in any order.
pub data History : ThreadPool → List Job → List Job → Type 0 where
  begun : (handler : ℕ) → History (thread_pool_new handler) [] []
  accepted :
      {pool pool' : ThreadPool} {posted run : List Job} (locking : ℕ) (job : Job) (id : ℕ)
      → History pool posted run
      → thread_pool_submit locking pool job.task job.callback job.delay ≡ done (pool', pos id)
      → History pool' (posted ++ (job ∷ [])) run
  refused :
      {pool pool' : ThreadPool} {posted run : List Job} (locking : ℕ) (job : Job) (n : ℕ)
      → History pool posted run
      → thread_pool_submit locking pool job.task job.callback job.delay ≡ done (pool', negsuc n)
      → History pool' posted run
  ran :
      {pool pool' : ThreadPool} {posted run : List Job} (index : ℕ) (c : TaskContainer)
      → History pool posted run
      → next_task pool ≡ done (some (pool', index, true))
      → get_elem? pool'.tasks index ≡ some c
      → History pool' posted (run ++ (job_of c ∷ []))
  failed :
      {pool pool' : ThreadPool} {posted run : List Job} (index : ℕ)
      → History pool posted run
      → next_task pool ≡ done (some (pool', index, false))
      → History pool' posted run
  ended :
      {pool pool' : ThreadPool} {posted run : List Job} (index : ℕ)
      → History pool posted run
      → finish_task pool index ≡ done pool'
      → History pool' posted run

-- What a history leaves in the box.
History-Box :
    {pool : ThreadPool} {posted run : List Job}
    → History pool posted run
    → (jobs : List Job) × Box pool jobs × (posted ≡ run ++ jobs)
unfolding Submits Takes thread_pool_new
History-Box (begun handler) = ([], vacant (thread_pool_new-IsQueue handler) refl, refl)
History-Box (accepted {pool} {pool'} {posted} {run} locking job id h e) =
    let (jobs, b, all) = History-Box h in
    let (empty, b') =
      Ends-done (Submits jobs job) _ (thread_pool_submit-Submits locking pool job jobs b) e in
    (job ∷ [], b', ap (λ js. js ++ (job ∷ [])) (all ∙ ap (λ js. run ++ js) empty ∙ append-nil run))
History-Box (refused {pool} {pool'} {posted} {run} locking job n h e) =
    let (jobs, b, all) = History-Box h in
    (
      jobs,
      Ends-done (Submits jobs job) _ (thread_pool_submit-Submits locking pool job jobs b) e,
      all,
    )
History-Box (ran {pool} {pool'} {posted} {run} index c h e at) =
    let (jobs, b, all) = History-Box h in
    let (d, at', one, b') = Ends-done (Takes jobs) _ (next_task-Takes pool jobs b) e in
    let same : job_of d ≡ job_of c = ap job_of (some-injective _ _ (sym at' ∙ at)) in
    (
      [],
      b',
      all
          ∙ ap (λ js. run ++ js) (one ∙ ap (λ j. j ∷ []) same)
          ∙ sym (append-nil (run ++ (job_of c ∷ []))),
    )
History-Box (failed {pool} {pool'} {posted} {run} index h e) =
    let (jobs, b, all) = History-Box h in
    absurd (Ends-done (Takes jobs) _ (next_task-Takes pool jobs b) e)
History-Box (ended {pool} {pool'} {posted} {run} index h e) =
    let (jobs, b, all) = History-Box h in
    (jobs, Ends-done (λ p. Box p jobs) _ (finish_task-Box pool index jobs b) e, all)

-- In every history of a pool the jobs that workers took to run are the jobs that `thread_pool_submit`
-- accepted, each once and in the order of the calls, but for the `pool.size` last ones, which wait; and no
-- worker ever finds a container that it refuses to run.
pub History_lem :
    {pool : ThreadPool} {posted run : List Job}
    → History pool posted run
    → ((waiting : List Job) × (posted ≡ run ++ waiting) × (length waiting ≡ pool.size))
      × ((pool' : ThreadPool) (index : ℕ) → next_task pool ≢ done (some (pool', index, false)))
unfolding Takes
History_lem {pool} h =
    let (jobs, b, all) = History-Box h in
    (
      (jobs, all, Box-size b),
      λ pool' index e. Ends-done (Takes jobs) _ (next_task-Takes pool jobs b) e,
    )
