-- ===== src/ThreadPool/Queue.antt =====
-- The circular buffer of the pool holds a first-in-first-out queue.
use local_marks.Prelude.{
  ℕ, zero, suc, ◌+◌, ◌-◌, ◌%◌, ◌≤◌, ◌<◌, ◌≡◌, ◌≢◌, inl, inr, refl, sym, ap, ◌∙◌, Bool, true, false,
  some, List, [], ◌∷◌, ◌++◌, ◌==◌, length, get_or, set, arith, length-set, length-replicate,
  get_or-set_self, get_or-set_ne, Bool-cases, ==_iff,
}
use mathlib.Core.Path.{subst}
use local_marks.ThreadPool.{
  ThreadTask, ThreadPool, queue_capacity, no_task, Submit, wait_not_full, dropped, queued,
  drop_call, thread_pool_submit, Work, wait_not_empty, exit, run, worker_section,
  thread_pool_create, fresh_pool, clamp_threads, start_workers,
}

pub record IsValid (pool : ThreadPool) : Type 0 where
  pub storage : length pool.queue ≡ queue_capacity
  pub head_in : pool.head < queue_capacity
  pub count_le : pool.count ≤ queue_capacity
  pub tail_at : pool.tail ≡ (pool.head + pool.count) % queue_capacity

-- the `n` tasks from index `at` on, round the end of the buffer
unfoldable pub live : List ThreadTask → ℕ → ℕ → List ThreadTask
live q at zero = []
live q at (suc n) = get_or q at no_task ∷ live q ((at + 1) % queue_capacity) n

-- the tasks that wait in the pool, oldest first
unfoldable pub waiting : ThreadPool → List ThreadTask
unfolding live
waiting pool = live pool.queue pool.head pool.count

-- a task written behind the live ones is appended to them
live-set :
    (q : List ThreadTask) (task : ThreadTask) (n at slot : ℕ)
    → length q ≡ queue_capacity
    → at < queue_capacity
    → n < queue_capacity
    → slot ≡ (at + n) % queue_capacity
    → live (set q slot task) at (suc n) ≡ live q at n ++ task ∷ []
unfolding live
live-set q task zero at slot size inside room e =
    let here : slot ≡ at = omega arith in rw (here, get_or-set_self q at task no_task (omega arith))
live-set q task (suc n) at slot size inside room e =
    let apart : slot ≢ at = omega arith in
    rw (get_or-set_ne q task no_task apart) (
      ap (λ r. get_or q at no_task ∷ r)
        (live-set q task n ((at + 1) % queue_capacity) slot size (omega arith) (omega arith)
          (omega arith)))

live-pos :
    (q : List ThreadTask) (at n : ℕ)
    → 0 < n
    → live q at n ≡ get_or q at no_task ∷ live q ((at + 1) % queue_capacity) (n - 1)
unfolding live
live-pos q at zero h = absurd (omega arith)
live-pos q at (suc n) h =
    ap (λ k. get_or q at no_task ∷ live q ((at + 1) % queue_capacity) k) (omega arith)

length-live : (q : List ThreadTask) (at n : ℕ) → length (live q at n) ≡ n
unfolding live
length-live q at zero = refl
length-live q at (suc n) = omega (arith, length-live q ((at + 1) % queue_capacity) n)

pub length-waiting : (pool : ThreadPool) → length (waiting pool) ≡ pool.count
unfolding waiting
length-waiting pool = length-live pool.queue pool.head pool.count

-- What a queued task has done: it is last in line, and the pool is in order.
pub record Queues (pool : ThreadPool) (task : ThreadTask) (pool' : ThreadPool) : Type 0 where
  pub valid : IsValid pool'
  pub line : waiting pool' ≡ waiting pool ++ task ∷ []
  pub same_stop : pool'.stop ≡ pool.stop
  pub same_threads : pool'.num_threads ≡ pool.num_threads

abbrev appended : ThreadPool → ThreadTask → ThreadPool
appended pool task = record pool {
  queue = set pool.queue pool.tail task;
  tail = (pool.tail + 1) % queue_capacity;
  count = pool.count + 1;
}

append_task :
    (pool : ThreadPool) (task : ThreadTask)
    → IsValid pool
    → pool.count < queue_capacity
    → Queues pool task (appended pool task)
unfolding waiting
append_task pool task v room =
    let more : pool.count + 1 ≡ suc pool.count = omega arith in
    record {
      valid = record {
        storage = length-set pool.queue pool.tail task ∙ v.storage;
        head_in = v.head_in;
        count_le = omega arith;
        tail_at = omega (arith, v.tail_at);
      };
      line = rw more (
          live-set pool.queue task pool.count pool.head pool.tail v.storage v.head_in room
            v.tail_at);
      same_stop = refl;
      same_threads = refl;
    }

-- What a section of `thread_pool_submit` does, by how it ends: it waits only on a full queue of a
-- running pool, drops only when the pool is stopping, and otherwise appends the task.
abbrev pub Submits : ThreadPool → ThreadTask → Submit → Type 0
Submits pool task wait_not_full = (pool.count ≡ queue_capacity) × (pool.stop ≡ false)
Submits pool task (dropped call) = (pool.stop ≡ true) × (call ≡ drop_call task)
Submits pool task (queued pool') = (pool.stop ≡ false) × Queues pool task pool'

-- A section of `thread_pool_submit` on a pool in order does one of three things: it waits exactly on
-- a full queue of a running pool, it drops the task of a stopping pool, or it appends the task behind
-- the waiting ones and leaves the pool in order.
pub submit-Submits :
    (pool : ThreadPool) (task : ThreadTask)
    → IsValid pool
    → Submits pool task (thread_pool_submit pool task)
unfolding thread_pool_submit
submit-Submits pool task v = elim (Bool-cases pool.stop) [
  | inl stopping ↦ elim (Bool-cases (pool.count == queue_capacity)) [
    | inl full ↦ simp (full, stopping) (refl, refl)
    | inr room ↦ simp (room, stopping) (refl, refl)
  ]
  | inr running ↦ elim (Bool-cases (pool.count == queue_capacity)) [
    | inl full ↦ simp (full, running) ((==_iff pool.count queue_capacity).0 full, refl)
    | inr room ↦
        let e : thread_pool_submit pool task ≡ queued (appended pool task) = ground arith in
        subst (Submits pool task) (sym e) (running, append_task pool task v (ground arith))
  ]
]

abbrev pub Works : ThreadPool → Work → Type 0
Works pool wait_not_empty = (waiting pool ≡ []) × (pool.stop ≡ false)
Works pool exit = (waiting pool ≡ []) × (pool.stop ≡ true)
Works pool (run task pool') =
    IsValid pool'
    × (waiting pool ≡ task ∷ waiting pool')
    × (pool'.stop ≡ pool.stop)
    × (pool'.num_threads ≡ pool.num_threads)

pub waiting-zero : (pool : ThreadPool) → pool.count ≡ 0 → waiting pool ≡ []
unfolding waiting live
waiting-zero pool e = rw e

-- A section of `worker_loop` on a pool in order takes the oldest waiting task if there is one, also
-- when the pool is stopping; without one it waits while the pool runs and leaves the loop once it stops.
pub worker-Works : (pool : ThreadPool) → IsValid pool → Works pool (worker_section pool)
unfolding worker_section
worker-Works pool v = elim (Bool-cases (pool.count == 0)) [
  | inl idle ↦
      let none_wait = waiting-zero pool ((==_iff pool.count 0).0 idle) in
      elim (Bool-cases pool.stop) [
        | inl stopping ↦ simp (idle, stopping) (none_wait, refl)
        | inr running ↦ simp (idle, running) (none_wait, refl)
      ]
  | inr busy ↦ rw busy (
    record {
      storage = v.storage;
      head_in = omega arith;
      count_le = omega (arith, v.count_le);
      tail_at = ground (arith, v.tail_at);
    },
    unfold waiting in live-pos pool.queue pool.head pool.count (ground arith),
    refl,
    refl,
  )
]

pub fresh-IsValid : (n : ℕ) → IsValid (fresh_pool n)
fresh-IsValid n = record {
  storage = length-replicate queue_capacity no_task;
  head_in = omega arith;
  count_le = omega arith;
  tail_at = refl;
}

-- What `thread_pool_create` makes is a running pool in order with an empty queue and between 1 and 256
-- workers, every one of which has started.
pub thread_pool_create-IsValid :
    (pool_ok threads_ok : Bool) (starts : ℕ → Bool) (n : ℕ) {pool : ThreadPool}
    → thread_pool_create pool_ok threads_ok starts n ≡ some pool
    → IsValid pool
      × (waiting pool ≡ [])
      × (pool.stop ≡ false)
      × (1 ≤ pool.num_threads)
      × (pool.num_threads ≤ 256)
      × (start_workers starts 0 pool.num_threads ≡ true)
unfolding thread_pool_create
thread_pool_create-IsValid pool_ok threads_ok starts n {pool} made =
    let e : fresh_pool (clamp_threads n) ≡ pool = ground arith in
    let started : start_workers starts 0 (clamp_threads n) ≡ true = ground arith in
    subst
      (λ (p : ThreadPool).
        IsValid p
        × (waiting p ≡ [])
        × (p.stop ≡ false)
        × (1 ≤ p.num_threads)
        × (p.num_threads ≤ 256)
        × (start_workers starts 0 p.num_threads ≡ true))
      e
      (
        fresh-IsValid (clamp_threads n),
        waiting-zero (fresh_pool (clamp_threads n)) refl,
        refl,
        unfold clamp_threads in ground arith,
        unfold clamp_threads in ground arith,
        started,
      )
