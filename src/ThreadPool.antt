-- ===== src/ThreadPool.antt =====
-- src/thread_pool.c: the bounded work queue and its workers. A critical section, from taking the lock
-- to releasing or waiting on it, is one step; a wait that wakes up runs the section again, so
-- spurious and lost wake-ups are covered. Function and argument pointers are numbers that are only
-- passed on; a NULL is none.
pub mod Queue
pub mod Run
pub mod Wake
pub mod Close
mod Tests
use local_marks.Prelude.{
  ℕ, zero, suc, ◌+◌, ◌-◌, ◌*◌, ◌/◌, ◌%◌, ◌^◌, ◌≤◌, ◌<◌, ◌≡◌, ◌≢◌, ◌↔◌, ◌⊎◌, inl, inr, refl, sym, ap,
  ◌∙◌, Bool, true, false, not, ◌&&◌, ◌||◌, Option, none, some, List, [], ◌∷◌, ◌++◌, map, append-nil,
  append_assoc, min, ltb, leb, ◌==◌, if◌then◌else◌, length, get_or, get_elem?, set, replicate, take,
  drop, arith, tests, All, All-get, All-set, All-append, All-replicate, length-set, length-append,
  length-replicate, length-take, length-take-le, length-drop, take_of_le, get_or-set_self,
  get_or-set_ne, get_or-replicate, Option-cases, Bool-cases, ==_iff, ltb→lt, lt→ltb, leb→le,
}

pub record ThreadTask : Type 0 where
  pub func : ℕ
  pub drop_func : Option ℕ
  pub arg : Option ℕ

abbrev pub queue_capacity : ℕ
queue_capacity = 4096

pub record ThreadPool : Type 0 where
  pub num_threads : ℕ
  pub queue : List ThreadTask
  pub head : ℕ
  pub tail : ℕ
  pub count : ℕ
  pub stop : Bool

-- what `calloc` leaves in a queue slot
abbrev pub no_task : ThreadTask
no_task = record { func = 0; drop_func = none; arg = none }

-- `num_threads` as `thread_pool_create` clamps it (a negative argument is 0 here)
unfoldable pub clamp_threads : ℕ → ℕ
clamp_threads num_threads =
    let n = if ltb num_threads 1 then 1 else num_threads in if ltb 256 n then 256 else n

-- `for (i = 0; i < num_threads; i++) pthread_create(...)`: whether all `rounds` from `i` on succeed
unfoldable pub start_workers : (ℕ → Bool) → ℕ → ℕ → Bool
start_workers pthread_create_ok i zero = true
start_workers pthread_create_ok i (suc rounds) =
    pthread_create_ok i && start_workers pthread_create_ok (i + 1) rounds

-- what `thread_pool_create` fills in
abbrev pub fresh_pool : ℕ → ThreadPool
fresh_pool n = record {
  num_threads = n;
  queue = replicate queue_capacity no_task;
  head = 0;
  tail = 0;
  count = 0;
  stop = false;
}

-- The flags tell whether the two allocations succeed, and `pthread_create` for each worker. If one
-- fails to start, those started are stopped and joined, and the result is NULL.
unfoldable pub thread_pool_create : Bool → Bool → (ℕ → Bool) → ℕ → Option ThreadPool
unfolding clamp_threads start_workers
thread_pool_create pool_ok threads_ok pthread_create_ok num_threads =
    let n = clamp_threads num_threads in
    if not pool_ok || not threads_ok || not (start_workers pthread_create_ok 0 n)
    then none
    else some (fresh_pool n)

-- How a critical section of `thread_pool_submit` ends: it waits on `not_full`, it drops the task
-- (with a call of its `drop_func` on its `arg`, if it has both), or it queues the task.
pub data Submit : Type 0 where
  wait_not_full : Submit
  dropped : Option (ℕ × ℕ) → Submit
  queued : ThreadPool → Submit

-- `if (drop_func && arg) drop_func(arg)`
unfoldable pub drop_call : ThreadTask → Option (ℕ × ℕ)
drop_call task = elim task.drop_func [
  | none ↦ none
  | some f ↦ elim task.arg [ none ↦ none | some a ↦ some (f, a) ]
]

unfoldable pub thread_pool_submit : ThreadPool → ThreadTask → Submit
unfolding drop_call
thread_pool_submit pool task =
    if pool.count == queue_capacity && not pool.stop
    then wait_not_full
    else if pool.stop
    then dropped (drop_call task)
    else queued (record pool {
      queue = set pool.queue pool.tail task;
      tail = (pool.tail + 1) % queue_capacity;
      count = pool.count + 1;
    })

-- How a critical section of `worker_loop` ends: it waits on `not_empty`, it leaves the loop, or it
-- has a task to run.
pub data Work : Type 0 where
  wait_not_empty : Work
  exit : Work
  run : ThreadTask → ThreadPool → Work

unfoldable pub worker_section : ThreadPool → Work
worker_section pool =
    if pool.count == 0 && not pool.stop
    then wait_not_empty
    else if pool.count == 0 && pool.stop
    then exit
    else run (get_or pool.queue pool.head no_task)
        (record pool { head = (pool.head + 1) % queue_capacity; count = pool.count - 1 })

-- the store that begins `thread_pool_destroy`; the joins wait for the workers to leave their loops
unfoldable pub thread_pool_stop : ThreadPool → ThreadPool
thread_pool_stop pool = record pool { stop = true }
