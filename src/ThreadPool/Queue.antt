-- ===== src/ThreadPool/Queue.antt =====
-- The queue in every reachable state: at most one task waits, and `thread_pool_submit` takes a task
-- exactly while none does.
use mpegts_reader.Common.{
  ℕ, ◌+◌, ◌%◌, ◌≤◌, ◌<◌, ◌≡◌, refl, ap, Bool-cases, ◌∙◌, ◌≢◌, ◌⊎◌, inl, inr, Bool, true, false,
  ◌==◌, List, length, length-set, get_elem?, get_elem?_lt, get_elem?-set_self, set, Option, none,
  if◌then◌else◌, some, arith,
}
use mpegts_reader.Common.Words.{u8}
use mpegts_reader.Common.Bits.Masks.{and_0x0f}
use mpegts_reader.Common.Outcome.{Outcome, done, >>=-eq-done, holds_of_result}
use mpegts_reader.Common.Integers.{ℤ, pos, negsuc}
use mpegts_reader.ThreadPool.Steps.{
  Step, submitted, taken, finished, Reachable, created, stepped, IsQueue, submit_locked-IsQueue,
  thread_pool_submit-IsQueue, store_lt, submitted_container, submit_locked_free, submit_locked_full,
}
use mpegts_reader.ThreadPool.{
  ThreadPool, TaskContainer, task_state_idle, task_state_run, thread_pool_new, load_container,
  store_container, submit_locked, thread_pool_submit, take_task, next_task, finish_task,
}

-- What a worker has taken, by the container `c` at `to_take`: it goes on to run an IDLE one.
abbrev pub taken_task : ThreadPool → TaskContainer → ThreadPool × ℕ × Bool
taken_task pool c =
    let index = pool.to_take % 16 in
    let taken : ThreadPool = record pool { to_take = index + 1; size = 0 } in
    if c.state == task_state_idle
    then (
      record taken { tasks = set pool.tasks index (record c { state = task_state_run }) },
      index,
      true,
    )
    else (taken, index, false)

pub next_task_lem :
    (pool : ThreadPool) (c : TaskContainer)
    → IsQueue pool
    → pool.size ≡ 1
    → get_elem? pool.tasks (pool.to_take % 16) ≡ some c
    → next_task pool ≡ done (some (taken_task pool c))
unfolding next_task take_task
next_task_lem pool c q one e =
    let below : pool.to_take % 16 < length pool.tasks = omega (arith, q.tasks) in
    let stored =
      store_lt pool.tasks (pool.to_take % 16) (record c { state = task_state_run }) below in
    let next : u8 (pool.to_take % 16 + 1) ≡ pool.to_take % 16 + 1 = omega arith in
    elim (Bool-cases (c.state == task_state_idle)) [
      | inl idle ↦ rw (next_task, take_task, one, and_0x0f pool.to_take, e, next, idle, stored) refl
      | inr busy ↦ rw (next_task, take_task, one, and_0x0f pool.to_take, e, next, busy) refl
    ]

pub taken_task-IsQueue :
    (pool : ThreadPool) (c : TaskContainer)
    → IsQueue pool
    → pool.to_put ≡ pool.to_take % 16 + 1
    → IsQueue (taken_task pool c).0
taken_task-IsQueue pool c q next =
    let within : pool.to_take % 16 + 1 ≤ 16 = omega arith in
    let none_waits : 0 ≡ 0 = refl in
    elim (Bool-cases (c.state == task_state_idle)) [
      | inl idle ↦ rw idle (record {
        tasks = length-set pool.tasks _ _ ∙ q.tasks;
        to_take = within;
        indexed = inl (none_waits, next);
      })
      | inr busy ↦
          rw busy (record { tasks = q.tasks; to_take = within; indexed = inl (none_waits, next) })
    ]

pub no_task :
    (m : Outcome (Option (ThreadPool × ℕ × Bool))) {t : ThreadPool × ℕ × Bool}
    → m ≡ done none
    → m ≢ done (some t)
no_task m known e = cc

-- The pool that a worker leaves, if it takes a task.
abbrev LeavesQueue : Option (ThreadPool × ℕ × Bool) → Type 0
LeavesQueue none = Unit
LeavesQueue (some (pool, index, run)) = IsQueue pool

pub next_task-IsQueue :
    (pool pool' : ThreadPool) (index : ℕ) (run : Bool)
    → IsQueue pool
    → next_task pool ≡ done (some (pool', index, run))
    → IsQueue pool'
unfolding next_task
next_task-IsQueue pool pool' index run q e = elim q.indexed [
  | inl (none_waits, same) ↦ absurd (no_task (next_task pool) (rw (next_task, none_waits) refl) e)
  | inr (one_waits, next) ↦
      let (c, at) = get_elem?_lt pool.tasks (pool.to_take % 16) (omega (arith, q.tasks)) in
      let is_queue : IsQueue (taken_task pool c).0 = taken_task-IsQueue pool c q next in
      holds_of_result LeavesQueue (next_task_lem pool c q one_waits at) is_queue e
]

length-store_container :
    (tasks : List TaskContainer) (i : ℕ) (c : TaskContainer) {tasks' : List TaskContainer}
    → store_container tasks i c ≡ done tasks'
    → length tasks' ≡ length tasks
length-store_container tasks i c e = ground (arith, length-set tasks i c)

pub finish_task-IsQueue :
    (pool pool' : ThreadPool) (index : ℕ)
    → IsQueue pool
    → finish_task pool index ≡ done pool'
    → IsQueue pool'
unfolding finish_task
finish_task-IsQueue pool pool' index q e =
    let (c, e1, e2) = >>=-eq-done (load_container pool.tasks index) _ e in
    let (tasks, e3, e4) = >>=-eq-done (store_container pool.tasks index _) _ e2 in
    let kept : length tasks ≡ length pool.tasks = length-store_container pool.tasks index _ e3 in
    let left : IsQueue (record pool { tasks = tasks }) = record {
      tasks = kept ∙ q.tasks;
      to_take = q.to_take;
      indexed = q.indexed;
    } in
    holds_of_result IsQueue refl left e4

Step-IsQueue : {pool pool' : ThreadPool} → IsQueue pool → Step pool pool' → IsQueue pool'
Step-IsQueue {pool} {pool'} q (submitted locking task callback delay result e) =
    thread_pool_submit-IsQueue locking pool pool' task callback delay result q e
Step-IsQueue {pool} {pool'} q (taken index run e) = next_task-IsQueue pool pool' index run q e
Step-IsQueue {pool} {pool'} q (finished index e) = finish_task-IsQueue pool pool' index q e

pub thread_pool_new-IsQueue : (handler : ℕ) → IsQueue (thread_pool_new handler)
unfolding thread_pool_new
thread_pool_new-IsQueue handler = record {
  tasks = refl;
  to_take = omega arith;
  indexed = inl (refl, refl);
}

-- In every pool that threads can reach, all 16 containers are there, both indices are in range, and no
-- task waits or just one, which stands at `to_take`.
pub Reachable-IsQueue : {pool : ThreadPool} → Reachable pool → IsQueue pool
Reachable-IsQueue (created handler) = thread_pool_new-IsQueue handler
Reachable-IsQueue (stepped pool pool' r step) = Step-IsQueue (Reachable-IsQueue r) step

-- The pool with the task at `i`.
abbrev with_task : ThreadPool → ℕ → TaskContainer → ThreadPool
with_task pool i c = record pool { tasks = set pool.tasks i c; to_put = i + 1; size = 1 }

taken_next :
    (pool : ThreadPool) (task callback : ℕ) (delay : ℤ)
    → IsQueue pool
    → pool.size ≡ 0
    → pool.to_put ≡ pool.to_take
    → (task == 0) ≡ false
    → (id : ℕ) × (pool' pool'' : ThreadPool) × (thread_pool_submit 0 pool task callback delay
        ≡ done (pool', pos id))
      × (next_task pool' ≡ done (some (pool'', id, true)))
      × (get_elem? pool''.tasks id
          ≡ some (record (submitted_container pool task callback delay) { state = task_state_run }))
unfolding thread_pool_submit
taken_next pool task callback delay q none_waits same not_null =
    let c = submitted_container pool task callback delay in
    let id = pool.to_take % 16 in
    let pool' = with_task pool id c in
    let locked : submit_locked pool task callback delay ≡ done (pool', pos id) =
      submit_locked_free pool task callback delay q none_waits
      ∙ ap (λ n. done (with_task pool (n % 16) c, pos (n % 16))) same in
    let below : id < length pool.tasks = omega (arith, q.tasks) in
    let below' : id < length pool'.tasks = omega (arith, below, length-set pool.tasks id c) in
    let q' = submit_locked-IsQueue pool pool' task callback delay (pos id) q locked in
    (
      id,
      pool',
      (taken_task pool' c).0,
      rw (thread_pool_submit, not_null) locked,
      next_task_lem pool' c q' refl (get_elem?-set_self pool.tasks id c below),
      get_elem?-set_self pool'.tasks id (record c { state = task_state_run }) below',
    )

-- In a pool that threads can reach, with the lock taken and a task that is not NULL,
-- `thread_pool_submit` either finds a task waiting, and then leaves the pool and returns -1, whatever room
-- the other 15 containers have; or it finds none, and then the next worker that looks takes this very
-- task: the container it gets has the task, the callback and the delay, and is set to RUN.
pub next_task-thread_pool_submit :
    (pool : ThreadPool) (task callback : ℕ) (delay : ℤ)
    → Reachable pool
    → task ≢ 0
    → ((pool.size ≡ 1) × (thread_pool_submit 0 pool task callback delay ≡ done (pool, negsuc 0)))
      ⊎ ((pool.size ≡ 0)
          × (id : ℕ) × (pool' pool'' : ThreadPool) × (thread_pool_submit 0 pool task callback delay
              ≡ done (pool', pos id))
          × (next_task pool' ≡ done (some (pool'', id, true)))
          × (get_elem? pool''.tasks id
              ≡ some (record (submitted_container pool task callback delay) {
                state = task_state_run;
              })))
unfolding thread_pool_submit
next_task-thread_pool_submit pool task callback delay r h =
    let q = Reachable-IsQueue r in
    let not_null : (task == 0) ≡ false = ground (arith, h) in
    elim q.indexed [
      | inl (none_waits, same) ↦
          let (id, pool', pool'', submits, takes, holds) =
            taken_next pool task callback delay q none_waits same not_null in
          inr (none_waits, id, pool', pool'', submits, takes, holds)
      | inr (one_waits, next) ↦
          let full = submit_locked_full pool task callback delay q one_waits in
          inl (one_waits, rw (thread_pool_submit, not_null) full)
    ]
