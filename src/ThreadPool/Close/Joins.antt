-- ===== src/ThreadPool/Close/Joins.antt =====
-- When the joins of `thread_pool_destroy` in src/thread_pool.c return.
use local_marks.Prelude.{ℕ, suc, ◌+◌, ◌-◌, ◌≤◌, ◌<◌, ◌≡◌, refl, ap, ◌∙◌, true, length, arith}
use local_marks.ThreadPool.{Work, wait_not_empty, exit, run, worker_section, thread_pool_stop}
use local_marks.ThreadPool.Queue.{IsValid, waiting, worker-Works, Works}
use local_marks.ThreadPool.Run.{stop-IsValid, waiting-stop}
use local_marks.ThreadPool.Close.{
  Workers, after_look, broadcast, Step, look, sleep, Reach, Run, start, then_step, all_awake,
  Before, Reach-Before,
}

-- behind the broadcasts, when no worker was behind its test: `k` steps have taken `total` down to what is
-- left of tasks and of workers
record Awake (n total k : ℕ) (s : Workers) : Type 0 where
  valid : IsValid s.pool
  stopped : s.pool.stop ≡ true
  workers : s.pool.num_threads ≡ n
  no_window : s.in_window ≡ 0
  all_up : s.asleep ≡ 0
  left : s.exited ≤ n
  spent : k + length (waiting s.pool) + (n - s.exited) ≡ total

look-Awake :
    {n total k : ℕ} {s : Workers} (r : Work)
    → Awake n total k s
    → s.asleep + s.exited < n
    → Works s.pool r
    → Awake n total (suc k) (after_look s r)
unfolding after_look
look-Awake wait_not_empty a some w = absurd (ground (arith, a.stopped))
look-Awake {n} {total} {k} {s} exit a some w = record {
  valid = a.valid;
  stopped = a.stopped;
  workers = a.workers;
  no_window = a.no_window;
  all_up = a.all_up;
  left = omega arith;
  spent = omega (arith, a.spent);
}
look-Awake {n} {total} {k} {s} (run task pool) a some (v, line, same, threads) = record {
  valid = v;
  stopped = same ∙ a.stopped;
  workers = threads ∙ a.workers;
  no_window = a.no_window;
  all_up = a.all_up;
  left = a.left;
  spent =
      let e : length (waiting s.pool) ≡ suc (length (waiting pool)) = ap (λ ts. length ts) line in
      omega (arith, a.spent);
}

Run-Awake :
    {n : ℕ} {s : Workers} {k : ℕ} {t : Workers}
    → Before n s
    → s.in_window ≡ 0
    → Run (broadcast s) k t
    → Awake n (length (waiting s.pool) + n) k t
unfolding broadcast thread_pool_stop
Run-Awake {n} {s} b free start = record {
  valid = unfold thread_pool_stop in stop-IsValid b.valid;
  stopped = refl;
  workers = b.workers;
  no_window = free;
  all_up = refl;
  left = omega (arith, b.stays);
  spent = omega (arith, b.stays, ap (λ ts. length ts) (waiting-stop s.pool));
}
Run-Awake b free (then_step {k} {t} r (look free' some)) =
    let a = Run-Awake b free r in
    look-Awake (worker_section t.pool) a (omega (arith, a.workers)) (worker-Works t.pool a.valid)
Run-Awake b free (then_step {k} {t} r (sleep some)) =
    let a = Run-Awake b free r in absurd (omega (arith, a.no_window))

-- If `thread_pool_destroy` comes, at any time, when no worker is between its test and its wait, then
-- whatever order the workers run in, the joins return: each step takes one waiting task or ends one
-- worker, so that a run has at most as many steps as there are tasks and workers, and while a worker has
-- not left some worker has a next step.
pub Run-Joins :
    (n : ℕ) {s t : Workers} {k : ℕ}
    → Reach (all_awake n) s
    → s.in_window ≡ 0
    → Run (broadcast s) k t
    → (k + length (waiting t.pool) + (n - t.exited) ≡ length (waiting s.pool) + n)
      × (t.exited < n → (u : Workers) × Step t u)
Run-Joins n {s} {t} r free steps =
    let a = Run-Awake (Reach-Before n r) free steps in
    (a.spent, λ some. (_, look a.no_window (omega (arith, a.all_up, a.workers))))
