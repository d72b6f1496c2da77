-- ===== src/ThreadPool/Wake.antt =====
-- The sleepers of the pool: a worker that waits on `not_empty`, and the one caller of
-- `thread_pool_submit`, the accept loop, on `not_full`. A wait ends here only by a signal.
use local_marks.Prelude.{
  ℕ, suc, ◌+◌, ◌-◌, ◌≤◌, ◌<◌, ◌≡◌, ◌⊎◌, inl, inr, refl, ap, ◌∙◌, Bool, true, false, [], ◌∷◌, length,
  arith, length-append, List-cases,
}
use native.Mathlib.Decide.{ℕ_discrete}
use local_marks.ThreadPool.{
  ThreadTask, ThreadPool, queue_capacity, Submit, wait_not_full, dropped, queued,
  thread_pool_submit, Work, wait_not_empty, exit, run, worker_section, fresh_pool,
}
use local_marks.ThreadPool.Queue.{
  IsValid, waiting, length-waiting, submit-Submits, Submits, worker-Works, Works, fresh-IsValid,
}

-- the pool, how many workers sleep, and whether the caller does
pub record Sleepers : Type 0 where
  pub pool : ThreadPool
  pub asleep : ℕ
  pub caller_asleep : Bool

-- Behind a section of `thread_pool_submit`: a queued task signals `not_empty`, which wakes one worker if
-- one sleeps.
unfoldable pub signal_submit : Sleepers → Submit → Sleepers
signal_submit s wait_not_full = record s { caller_asleep = true }
signal_submit s (dropped call) = s
signal_submit s (queued pool) = record s { pool = pool; asleep = s.asleep - 1 }

-- Behind a section of `worker_loop`: a task that is taken signals `not_full`.
unfoldable pub signal_work : Sleepers → Work → Sleepers
signal_work s wait_not_empty = record s { asleep = s.asleep + 1 }
signal_work s exit = s
signal_work s (run task pool) = record s { pool = pool; caller_asleep = false }

-- before `thread_pool_destroy`: the caller submits when it is awake, and an awake worker looks for a task
pub data Step (s : Sleepers) : Sleepers → Type 0 where
  submit :
      (task : ThreadTask)
      → s.caller_asleep ≡ false
      → Step s (signal_submit s (thread_pool_submit s.pool task))
  work : s.asleep < s.pool.num_threads → Step s (signal_work s (worker_section s.pool))

pub data Reach (s : Sleepers) : Sleepers → Type 0 where
  here : Reach s s
  next : {t u : Sleepers} → Reach s t → Step t u → Reach s u

abbrev pub all_awake : ℕ → Sleepers
all_awake n = record { pool = fresh_pool n; asleep = 0; caller_asleep = false }

-- no signal is missed: a worker sleeps only if those awake are enough for the tasks that wait, and the
-- caller sleeps only beside a full queue
pub record IsAwake (n : ℕ) (s : Sleepers) : Type 0 where
  pub valid : IsValid s.pool
  pub running : s.pool.stop ≡ false
  pub workers : s.pool.num_threads ≡ n
  pub enough : (s.asleep ≡ 0) ⊎ (length (waiting s.pool) + s.asleep ≤ n)
  pub full : (s.caller_asleep ≡ false) ⊎ (length (waiting s.pool) ≡ queue_capacity)

submit-IsAwake :
    {n : ℕ} {s : Sleepers} (task : ThreadTask) (r : Submit)
    → IsAwake n s
    → s.caller_asleep ≡ false
    → Submits s.pool task r
    → IsAwake n (signal_submit s r)
unfolding signal_submit
submit-IsAwake {n} {s} task wait_not_full k up w = record {
  valid = k.valid;
  running = k.running;
  workers = k.workers;
  enough = k.enough;
  full = inr (length-waiting s.pool ∙ w.0);
}
submit-IsAwake task (dropped call) k up w = absurd (ground (arith, k.running))
submit-IsAwake {n} {s} task (queued pool) k up (on, q) = record {
  valid = q.valid;
  running = q.same_stop ∙ on;
  workers = q.same_threads ∙ k.workers;
  enough = elim k.enough [
    | inl nobody ↦ inl (omega arith)
    | inr some_awake ↦ elim (ℕ_discrete s.asleep 0) [
      | yes nobody ↦ inl (omega arith)
      | no sleeper ↦ inr (
          let e : length (waiting pool) ≡ length (waiting s.pool) + 1 =
            ap (λ ts. length ts) q.line ∙ length-append (waiting s.pool) (task ∷ []) in
          omega arith)
    ]
  ];
  full = inl up;
}

work-IsAwake :
    {n : ℕ} {s : Sleepers} (r : Work)
    → IsAwake n s
    → s.asleep < n
    → Works s.pool r
    → IsAwake n (signal_work s r)
unfolding signal_work
work-IsAwake {n} {s} wait_not_empty k free w = record {
  valid = k.valid;
  running = k.running;
  workers = k.workers;
  enough = inr (let e : length (waiting s.pool) ≡ 0 = ap (λ ts. length ts) w.0 in omega arith);
  full = k.full;
}
work-IsAwake exit k free w = absurd (ground (arith, k.running))
work-IsAwake {n} {s} (run task pool) k free (v, line, same, threads) = record {
  valid = v;
  running = same ∙ k.running;
  workers = threads ∙ k.workers;
  enough = elim k.enough [
    | inl nobody ↦ inl nobody
    | inr some_awake ↦ inr (
        let e : length (waiting s.pool) ≡ suc (length (waiting pool)) = ap (λ ts. length ts) line in
        omega arith)
  ];
  full = inl refl;
}

Reach-IsAwake : (n : ℕ) {s : Sleepers} → Reach (all_awake n) s → IsAwake n s
Reach-IsAwake n here = record {
  valid = fresh-IsValid n;
  running = refl;
  workers = refl;
  enough = inl refl;
  full = inl refl;
}
Reach-IsAwake n (next {t} r (submit task up)) =
    let k = Reach-IsAwake n r in
    submit-IsAwake task (thread_pool_submit t.pool task) k up (submit-Submits t.pool task k.valid)
Reach-IsAwake n (next {t} r (work free)) =
    let k = Reach-IsAwake n r in
    work-IsAwake (worker_section t.pool) k (omega (arith, k.workers)) (worker-Works t.pool k.valid)

-- Before `thread_pool_destroy`, whatever the order of the sections and with waits that end by a signal
-- only: a worker is awake whenever a task waits in a pool with workers, and the caller of
-- `thread_pool_submit` sleeps only while the queue is full.
pub Reach-NoneStranded :
    (n : ℕ) {s : Sleepers}
    → 0 < n
    → Reach (all_awake n) s
    → ((waiting s.pool ≡ []) ⊎ (s.asleep < n))
      × ((s.caller_asleep ≡ false) ⊎ (length (waiting s.pool) ≡ queue_capacity))
Reach-NoneStranded n {s} some_worker r =
    let k = Reach-IsAwake n r in
    (
      elim (List-cases (waiting s.pool)) [
        | inl idle ↦ inl idle
        | inr (task, rest, busy) ↦ inr (
            let e : length (waiting s.pool) ≡ suc (length rest) = ap (λ ts. length ts) busy in
            elim k.enough [ inl nobody ↦ omega arith | inr some_awake ↦ omega arith ])
      ],
      k.full,
    )
