-- ===== src/ThreadPool/Run.antt =====
-- The pool at work: any number of callers and workers, in any order. A step is a critical section of
-- `thread_pool_submit` or `worker_loop`, or the store of `thread_pool_destroy`.
use local_marks.Prelude.{
  ℕ, ◌+◌, ◌<◌, ◌≡◌, refl, sym, ◌∙◌, true, false, Option, List, [], ◌∷◌, ◌++◌, append-nil,
  append_assoc, arith,
}
use local_marks.ThreadPool.{
  ThreadTask, ThreadPool, Submit, wait_not_full, dropped, queued, thread_pool_submit, Work,
  wait_not_empty, exit, run, worker_section, thread_pool_stop, fresh_pool,
}
use local_marks.ThreadPool.Queue.{
  IsValid, waiting, submit-Submits, Submits, worker-Works, Works, waiting-zero, fresh-IsValid,
}

-- The pool with its history: the tasks that were queued and those that a worker took, oldest first,
-- the calls of `drop_func`, and how many workers have left their loops.
pub record System : Type 0 where
  pub pool : ThreadPool
  pub accepted : List ThreadTask
  pub taken : List ThreadTask
  pub drops : List (Option (ℕ × ℕ))
  pub exited : ℕ

abbrev pub start : ℕ → System
start n = record { pool = fresh_pool n; accepted = []; taken = []; drops = []; exited = 0 }

unfoldable pub after_submit : System → ThreadTask → Submit → System
after_submit s task wait_not_full = s
after_submit s task (dropped call) = record s { drops = s.drops ++ call ∷ [] }
after_submit s task (queued pool) = record s { pool = pool; accepted = s.accepted ++ task ∷ [] }

unfoldable pub after_work : System → Work → System
after_work s wait_not_empty = s
after_work s exit = record s { exited = s.exited + 1 }
after_work s (run task pool) = record s { pool = pool; taken = s.taken ++ task ∷ [] }

pub data Step (s : System) : System → Type 0 where
  submit : (task : ThreadTask) → Step s (after_submit s task (thread_pool_submit s.pool task))
  work : Step s (after_work s (worker_section s.pool))
  destroy : Step s (record s { pool = thread_pool_stop s.pool })

pub data Reach (s : System) : System → Type 0 where
  here : Reach s s
  next : {t u : System} → Reach s t → Step t u → Reach s u

-- every accepted task was taken or waits, in the order of acceptance; a worker leaves only a stopping
-- pool with nothing left to do; nothing is dropped while the pool runs
pub record IsOrderly (s : System) : Type 0 where
  pub valid : IsValid s.pool
  pub fifo : s.accepted ≡ s.taken ++ waiting s.pool
  pub drained : 0 < s.exited → (s.pool.stop ≡ true) × (waiting s.pool ≡ [])
  pub undropped : s.pool.stop ≡ false → s.drops ≡ []

after_submit-IsOrderly :
    (s : System) (task : ThreadTask) (r : Submit)
    → IsOrderly s
    → Submits s.pool task r
    → IsOrderly (after_submit s task r)
unfolding after_submit
after_submit-IsOrderly s task wait_not_full o p = o
after_submit-IsOrderly s task (dropped call) o p = record {
  valid = o.valid;
  fifo = o.fifo;
  drained = o.drained;
  undropped = λ running. cc (p.0, running);
}
after_submit-IsOrderly s task (queued pool) o (running, q) = record {
  valid = q.valid;
  fifo = rw (q.line, o.fifo) (append_assoc s.taken (waiting s.pool) (task ∷ []));
  drained = λ gone. cc ((o.drained gone).0, running);
  undropped = λ _. o.undropped running;
}

after_work-IsOrderly :
    (s : System) (r : Work) → IsOrderly s → Works s.pool r → IsOrderly (after_work s r)
unfolding after_work
after_work-IsOrderly s wait_not_empty o p = o
after_work-IsOrderly s exit o p = record {
  valid = o.valid;
  fifo = o.fifo;
  drained = λ _. (p.1, p.0);
  undropped = o.undropped;
}
after_work-IsOrderly s (run task pool) o (v, line, same, _) = record {
  valid = v;
  fifo = o.fifo ∙ rw line (sym (append_assoc s.taken (task ∷ []) (waiting pool)));
  drained = λ gone. ground (arith, o.drained gone);
  undropped = λ running. o.undropped (sym same ∙ running);
}

pub waiting-stop : (pool : ThreadPool) → waiting (thread_pool_stop pool) ≡ waiting pool
unfolding waiting thread_pool_stop
waiting-stop pool = refl

pub stop-IsValid : {pool : ThreadPool} → IsValid pool → IsValid (thread_pool_stop pool)
unfolding thread_pool_stop
stop-IsValid v = record {
  storage = v.storage;
  head_in = v.head_in;
  count_le = v.count_le;
  tail_at = v.tail_at;
}

Step-IsOrderly : {s t : System} → Step s t → IsOrderly s → IsOrderly t
Step-IsOrderly {s} (submit task) o =
    after_submit-IsOrderly s task (thread_pool_submit s.pool task) o
      (submit-Submits s.pool task o.valid)
Step-IsOrderly {s} work o =
    after_work-IsOrderly s (worker_section s.pool) o (worker-Works s.pool o.valid)
Step-IsOrderly {s} destroy o = record {
  valid = stop-IsValid o.valid;
  fifo = o.fifo ∙ rw (waiting-stop s.pool);
  drained = λ gone. (unfold thread_pool_stop in refl, waiting-stop s.pool ∙ (o.drained gone).1);
  undropped = λ running. unfold thread_pool_stop in cc running;
}

-- Whatever the callers and the workers do, in every reachable state each queued task has been taken by
-- exactly one worker or waits, in the order of acceptance; nothing is dropped before the pool stops;
-- and once a worker has left its loop the queue is empty.
pub Reach-IsOrderly : (n : ℕ) {s : System} → Reach (start n) s → IsOrderly s
Reach-IsOrderly n here = record {
  valid = fresh-IsValid n;
  fifo = sym (waiting-zero (fresh_pool n) refl);
  drained = λ gone. absurd (omega arith);
  undropped = λ _. refl;
}
Reach-IsOrderly n (next r st) = Step-IsOrderly st (Reach-IsOrderly n r)

-- When a worker has left its loop, which `thread_pool_destroy` waits for, every task ever queued has
-- been taken, in the order in which they were queued.
pub Reach-drained : (n : ℕ) {s : System} → Reach (start n) s → 0 < s.exited → s.accepted ≡ s.taken
Reach-drained n {s} r gone =
    let o = Reach-IsOrderly n r in o.fifo ∙ rw ((o.drained gone).1) (append-nil s.taken)
