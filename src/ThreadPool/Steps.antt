-- ===== src/ThreadPool/Steps.antt =====
-- The threads' steps on the task queue, and what a call of `thread_pool_submit` makes of a queue.
use mpegts_reader.Common.{
  ℕ, ◌+◌, ◌%◌, ◌≤◌, ◌<◌, ◌≡◌, refl, ap, not, ◌||◌, Bool-cases, ◌∙◌, ◌⊎◌, inl, inr, Bool, ◌==◌, List,
  length, length-set, set, some, arith,
}
use mpegts_reader.Common.Words.{u8}
use mpegts_reader.Common.Bits.Masks.{and_0x0f}
use mpegts_reader.Common.Outcome.{done, holds_of_result}
use mpegts_reader.Common.Integers.{ℤ, pos, negsuc}
use mpegts_reader.ThreadPool.{
  ThreadPool, TaskContainer, task_state_idle, thread_pool_new, store_container, get_available,
  is_queue_full_unsafe, submit_locked, thread_pool_submit, next_task, finish_task,
}

-- What threads do to the pool, each under the lock: a call of `thread_pool_submit`, a worker that takes a
-- task, and the end of a run.
pub data Step (pool pool' : ThreadPool) : Type 0 where
  submitted :
      (locking task callback : ℕ) (delay result : ℤ)
      → thread_pool_submit locking pool task callback delay ≡ done (pool', result)
      → Step pool pool'
  taken :
      (index : ℕ) (run : Bool) → next_task pool ≡ done (some (pool', index, run)) → Step pool pool'
  finished : (index : ℕ) → finish_task pool index ≡ done pool' → Step pool pool'

pub data Reachable : ThreadPool → Type 0 where
  created : (handler : ℕ) → Reachable (thread_pool_new handler)
  stepped : (pool pool' : ThreadPool) → Reachable pool → Step pool pool' → Reachable pool'

-- No task waits, or one that stands at `to_take`.
abbrev pub IsIndexed : ℕ → ℕ → ℕ → Type 0
IsIndexed size to_put to_take =
    ((size ≡ 0) × (to_put ≡ to_take)) ⊎ ((size ≡ 1) × (to_put ≡ to_take % 16 + 1))

pub record IsQueue (pool : ThreadPool) : Type 0 where
  pub tasks : length pool.tasks ≡ 16
  pub to_take : pool.to_take ≤ 16
  pub indexed : IsIndexed pool.size pool.to_put pool.to_take

-- With one task waiting the ring counts as full, without one as free.
is_full : (pool : ThreadPool) → IsQueue pool → is_queue_full_unsafe pool ≡ (pool.size == 1)
unfolding is_queue_full_unsafe get_available
is_full pool q = ground (arith, q.indexed, q.to_take)

pub store_lt :
    (tasks : List TaskContainer) (i : ℕ) (c : TaskContainer)
    → i < length tasks
    → store_container tasks i c ≡ done (set tasks i c)
store_lt tasks i c h = ground arith

-- The container that `thread_pool_submit` fills.
abbrev pub submitted_container : ThreadPool → ℕ → ℕ → ℤ → TaskContainer
submitted_container pool task callback delay = record {
  task = task;
  handler = pool.handler;
  callback = callback;
  delay = delay;
  state = task_state_idle;
}

pub submit_locked_free :
    (pool : ThreadPool) (task callback : ℕ) (delay : ℤ)
    → IsQueue pool
    → pool.size ≡ 0
    → submit_locked pool task callback delay
      ≡ done (
        record pool {
          tasks = set pool.tasks (pool.to_put % 16) (submitted_container pool task callback delay);
          to_put = pool.to_put % 16 + 1;
          size = 1;
        },
        pos (pool.to_put % 16),
      )
unfolding submit_locked
submit_locked_free pool task callback delay q e =
    let below : pool.to_put % 16 < length pool.tasks = omega (arith, q.tasks) in
    let stored =
      store_lt pool.tasks (pool.to_put % 16) (submitted_container pool task callback delay) below in
    let next : u8 (pool.to_put % 16 + 1) ≡ pool.to_put % 16 + 1 = omega arith in
    rw (submit_locked, is_full pool q, e, and_0x0f pool.to_put, stored, next) refl

pub submit_locked_full :
    (pool : ThreadPool) (task callback : ℕ) (delay : ℤ)
    → IsQueue pool
    → pool.size ≡ 1
    → submit_locked pool task callback delay ≡ done (pool, negsuc 0)
unfolding submit_locked
submit_locked_full pool task callback delay q e = rw (submit_locked, is_full pool q, e) refl

pub submit_locked-IsQueue :
    (pool pool' : ThreadPool) (task callback : ℕ) (delay result : ℤ)
    → IsQueue pool
    → submit_locked pool task callback delay ≡ done (pool', result)
    → IsQueue pool'
submit_locked-IsQueue pool pool' task callback delay result q e = elim q.indexed [
  | inl (none_waits, same) ↦
      let one : 1 ≡ 1 = refl in
      holds_of_result (λ r. IsQueue r.0) (submit_locked_free pool task callback delay q none_waits)
        (record {
          tasks = length-set pool.tasks _ _ ∙ q.tasks;
          to_take = q.to_take;
          indexed = inr (one, ap (λ n. n % 16 + 1) same);
        })
        e
  | inr (one_waits, next) ↦
      holds_of_result (λ r. IsQueue r.0) (submit_locked_full pool task callback delay q one_waits) q
        e
]

pub thread_pool_submit-IsQueue :
    (locking : ℕ) (pool pool' : ThreadPool) (task callback : ℕ) (delay result : ℤ)
    → IsQueue pool
    → thread_pool_submit locking pool task callback delay ≡ done (pool', result)
    → IsQueue pool'
unfolding thread_pool_submit
thread_pool_submit-IsQueue locking pool pool' task callback delay result q e =
    elim (Bool-cases (task == 0 || not (locking == 0))) [
      | inl refused ↦
          let known : thread_pool_submit locking pool task callback delay ≡ done (pool, negsuc 0) =
            rw (thread_pool_submit, refused) refl in
          holds_of_result (λ r. IsQueue r.0) known q e
      | inr goes_on ↦
          submit_locked-IsQueue pool pool' task callback delay result q
            (rw (thread_pool_submit, goes_on) at e)
    ]
