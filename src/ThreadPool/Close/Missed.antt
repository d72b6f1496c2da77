-- ===== src/ThreadPool/Close/Missed.antt =====
-- The wake-up that `thread_pool_destroy` of src/thread_pool.c can lose.
use local_marks.Prelude.{ℕ, ◌+◌, ◌≤◌, ◌<◌, ◌≡◌, true}
use local_marks.ThreadPool.Queue.{IsValid}
use local_marks.ThreadPool.Close.{Workers, Run}

-- the worker that missed the broadcast
record Missed (n : ℕ) (s : Workers) : Type 0 where
  valid : IsValid s.pool
  stopped : s.pool.stop ≡ true
  workers : s.pool.num_threads ≡ n
  lost : 0 < s.in_window + s.asleep
  sum : s.in_window + s.asleep + s.exited ≤ n
