-- ===== src/Server/System.antt =====
-- The server at work: the main thread in `server_run` of src/server.c, the pool of src/thread_pool.c and
-- the limiter of src/ratelimit.c. A step is a round of the accept loop, a critical section of the pool,
-- the end of a job, or a step of the shutdown; they come in any order.
use local_marks.Prelude.{
  ℕ, ◌+◌, ◌<◌, ◌≡◌, Bool, true, ◌&&◌, Option, none, some, List, [], ◌∷◌, ◌++◌, length,
}
use local_marks.Prelude.Bytes.{Bytes}
use local_marks.RateLimit.{RateLimit}
use local_marks.ThreadPool.{
  ThreadTask, ThreadPool, Submit, wait_not_full, dropped, queued, thread_pool_submit, Work,
  wait_not_empty, exit, run, worker_section, thread_pool_stop, fresh_pool,
}
use local_marks.Server.Listen.{
  Arrival, Arrived, leave_loop, skip, refuse, admit, accept_connection, peer_addr,
  handle_client_task, leave_limiter,
}

-- where the main thread is: in the loop, in `thread_pool_submit`, in `thread_pool_destroy`, or behind
-- `ratelimit_destroy`
pub data Main : Type 0 where
  accepting : Main
  submitting : ThreadTask → Main
  stopping : Main
  finished : Main

-- `running` are the tasks whose `handle_client` has begun and not ended, `exited` the workers that have
-- left their loop, `arrivals` the rounds that got to the limiter; `safe` is false once `strcmp` has met NULL.
pub record ServerState : Type 0 where
  pub pool : ThreadPool
  pub rl : Option RateLimit
  pub main : Main
  pub running : List ThreadTask
  pub exited : ℕ
  pub arrivals : ℕ
  pub safe : Bool

-- behind the set-up of `server_run`, with `n` workers
abbrev pub server_start : ℕ → Option RateLimit → ServerState
server_start n rl = record {
  pool = fresh_pool n;
  rl = rl;
  main = accepting;
  running = [];
  exited = 0;
  arrivals = 0;
  safe = true;
}

-- `thread_pool_destroy` up to its joins
unfoldable pub begin_stop : ServerState → ServerState
begin_stop s = record s { main = stopping; pool = thread_pool_stop s.pool }

unfoldable pub after_arrival : ServerState → Arrived → ServerState
unfolding begin_stop
after_arrival s leave_loop = begin_stop s
after_arrival s skip = s
after_arrival s (refuse safe rl sent) = record s {
  rl = some rl;
  arrivals = s.arrivals + 1;
  safe = s.safe && safe;
}
after_arrival s (admit rl job) = record s {
  rl = rl;
  arrivals = s.arrivals + 1;
  main = submitting (handle_client_task job);
}

module _ (peer : ℕ → Option (Bytes × ℕ)) where
  -- the address of a task's job
  unfoldable pub task_ip : ThreadTask → Bytes
  task_ip task = elim task.arg [ none ↦ [] | some job ↦ (peer_addr (peer job)).0 ]

  unfoldable pub job_left : ServerState → ℕ → ThreadTask → ServerState
  unfolding task_ip
  job_left s now task =
      let (safe, rl) = leave_limiter now s.rl (task_ip task) in
      record s { rl = rl; safe = s.safe && safe }

  -- `client_job_drop` runs if the task is dropped
  unfoldable pub after_submit : ServerState → ℕ → ThreadTask → Submit → ServerState
  unfolding job_left
  after_submit s now task wait_not_full = s
  after_submit s now task (dropped none) = record s { main = accepting }
  after_submit s now task (dropped (some call)) = job_left (record s { main = accepting }) now task
  after_submit s now task (queued pool) = record s { main = accepting; pool = pool }

  unfoldable pub after_work : ServerState → Work → ServerState
  after_work s wait_not_empty = s
  after_work s exit = record s { exited = s.exited + 1 }
  after_work s (run task pool) = record s { pool = pool; running = task ∷ s.running }

  -- A worker that is neither in a job nor gone may run its section; a job may end whenever it runs; the
  -- limiter is destroyed when all workers are joined.
  pub data Step (s : ServerState) : ServerState → Type 0 where
    arrive :
        (a : Arrival)
        → s.main ≡ accepting
        → Step s (after_arrival s (accept_connection peer s.rl a))
    shutdown : s.main ≡ accepting → Step s (begin_stop s)
    submit :
        (task : ThreadTask) (now : ℕ)
        → s.main ≡ submitting task
        → Step s (after_submit s now task (thread_pool_submit s.pool task))
    work :
        length s.running + s.exited < s.pool.num_threads
        → Step s (after_work s (worker_section s.pool))
    finish :
        (before after : List ThreadTask) (task : ThreadTask) (now : ℕ)
        → s.running ≡ before ++ task ∷ after
        → Step s (job_left (record s { running = before ++ after }) now task)
    join :
        s.main ≡ stopping
        → s.exited ≡ s.pool.num_threads
        → Step s (record s { main = finished; rl = none })

  pub data Reach (s : ServerState) : ServerState → Type 0 where
    here : Reach s s
    next : {t u : ServerState} → Reach s t → Step t u → Reach s u
