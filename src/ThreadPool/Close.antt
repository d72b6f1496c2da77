-- ===== src/ThreadPool/Close.antt =====
-- `thread_pool_destroy` of src/thread_pool.c against workers that sleep. A worker holds the lock from its
-- test of the queue until it waits; the flag and the broadcasts of `thread_pool_destroy` do not take it.
-- A wait ends here only by a signal or a broadcast. The accept loop, the one caller of
-- `thread_pool_submit`, is the thread that calls `thread_pool_destroy`, so nobody waits on `not_full` then.
pub mod Joins
pub mod Missed
use local_marks.Prelude.{ℕ, suc, ◌+◌, ◌-◌, ◌≤◌, ◌<◌, ◌≡◌, refl, ap, ◌∙◌, true, false, length, arith}
use local_marks.ThreadPool.{
  ThreadTask, ThreadPool, Submit, wait_not_full, dropped, queued, thread_pool_submit, Work,
  wait_not_empty, exit, run, worker_section, thread_pool_stop, fresh_pool,
}
use local_marks.ThreadPool.Queue.{
  IsValid, waiting, submit-Submits, Submits, worker-Works, Works, fresh-IsValid,
}
use local_marks.ThreadPool.Run.{stop-IsValid, waiting-stop}

-- the pool; the workers between their test and the wait, those that wait, and those that have left
pub record Workers : Type 0 where
  pub pool : ThreadPool
  pub in_window : ℕ
  pub asleep : ℕ
  pub exited : ℕ

-- the end of a section of `worker_loop`; a worker that finds nothing is about to wait
unfoldable pub after_look : Workers → Work → Workers
after_look s wait_not_empty = record s { in_window = s.in_window + 1 }
after_look s exit = record s { exited = s.exited + 1 }
after_look s (run task pool) = record s { pool = pool }

-- `pthread_cond_wait`, which releases the lock
unfoldable pub fall_asleep : Workers → Workers
fall_asleep s = record s { in_window = s.in_window - 1; asleep = s.asleep + 1 }

-- the end of a section of `thread_pool_submit`, with its signal
unfoldable pub after_call : Workers → Submit → Workers
after_call s wait_not_full = s
after_call s (dropped call) = s
after_call s (queued pool) = record s { pool = pool; asleep = s.asleep - 1 }

-- the flag and the broadcasts of `thread_pool_destroy`
unfoldable pub broadcast : Workers → Workers
broadcast s = record s { pool = thread_pool_stop s.pool; asleep = 0 }

-- what a worker does: one that is awake takes the lock if it is free, one behind its test waits
pub data Step (s : Workers) : Workers → Type 0 where
  look :
      s.in_window ≡ 0
      → s.asleep + s.exited < s.pool.num_threads
      → Step s (after_look s (worker_section s.pool))
  sleep : 0 < s.in_window → Step s (fall_asleep s)

-- before `thread_pool_destroy`
pub data Reach (s : Workers) : Workers → Type 0 where
  here : Reach s s
  work : {t u : Workers} → Reach s t → Step t u → Reach s u
  submit :
      {t : Workers} (task : ThreadTask)
      → Reach s t
      → t.in_window ≡ 0
      → Reach s (after_call t (thread_pool_submit t.pool task))

-- behind it, with the number of steps
pub data Run (s : Workers) : ℕ → Workers → Type 0 where
  start : Run s 0 s
  then_step : {k : ℕ} {t u : Workers} → Run s k t → Step t u → Run s (suc k) u

abbrev pub all_awake : ℕ → Workers
all_awake n = record { pool = fresh_pool n; in_window = 0; asleep = 0; exited = 0 }

-- what holds before `thread_pool_destroy`
pub record Before (n : ℕ) (s : Workers) : Type 0 where
  pub valid : IsValid s.pool
  pub running : s.pool.stop ≡ false
  pub workers : s.pool.num_threads ≡ n
  pub stays : s.exited ≡ 0
  pub counted : s.in_window + s.asleep ≤ n

look-Before :
    {n : ℕ} {s : Workers} (r : Work)
    → Before n s
    → s.in_window ≡ 0
    → s.asleep + s.exited < n
    → Works s.pool r
    → Before n (after_look s r)
unfolding after_look
look-Before {n} {s} wait_not_empty b free awake w = record {
  valid = b.valid;
  running = b.running;
  workers = b.workers;
  stays = b.stays;
  counted = omega (arith, b.counted, b.stays);
}
look-Before exit b free awake w = absurd (ground (arith, b.running))
look-Before {n} {s} (run task pool) b free awake (v, line, same, threads) = record {
  valid = v;
  running = same ∙ b.running;
  workers = threads ∙ b.workers;
  stays = b.stays;
  counted = b.counted;
}

submit-Before :
    {n : ℕ} {s : Workers} (task : ThreadTask) (r : Submit)
    → Before n s
    → Submits s.pool task r
    → Before n (after_call s r)
unfolding after_call
submit-Before task wait_not_full b w = b
submit-Before task (dropped call) b w = b
submit-Before task (queued pool) b (on, q) = record {
  valid = q.valid;
  running = q.same_stop ∙ on;
  workers = q.same_threads ∙ b.workers;
  stays = b.stays;
  counted = omega (arith, b.counted);
}

pub Reach-Before : (n : ℕ) {s : Workers} → Reach (all_awake n) s → Before n s
unfolding fall_asleep
Reach-Before n here = record {
  valid = fresh-IsValid n;
  running = refl;
  workers = refl;
  stays = refl;
  counted = omega arith;
}
Reach-Before n (work {t} r (look free awake)) =
    let b = Reach-Before n r in
    look-Before (worker_section t.pool) b free (omega (arith, b.workers))
      (worker-Works t.pool b.valid)
Reach-Before n (work {t} r (sleep some)) =
    let b = Reach-Before n r in
    record {
      valid = b.valid;
      running = b.running;
      workers = b.workers;
      stays = b.stays;
      counted = omega (arith, b.counted);
    }
Reach-Before n (submit {t} task r free) =
    let b = Reach-Before n r in
    submit-Before task (thread_pool_submit t.pool task) b (submit-Submits t.pool task b.valid)
