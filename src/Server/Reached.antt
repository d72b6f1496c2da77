-- ===== src/Server/Reached.antt =====
-- The books of the server in the states that it can reach.
use local_marks.Prelude.{
  ℕ, ◌-◌, ◌^◌, ◌≤◌, ◌<◌, ◌≡◌, ◌≢◌, refl, sym, ◌∙◌, Bool, true, Option, none, some, List, [], ◌∷◌,
  length, drop, arith,
}
use mathlib.Core.Path.{subst}
use local_marks.Prelude.Bytes.{Bytes}
use local_marks.ThreadPool.{
  ThreadTask, Submit, wait_not_full, dropped, queued, thread_pool_submit, Work, wait_not_empty,
  exit, run, worker_section, fresh_pool,
}
use local_marks.ThreadPool.Queue.{waiting, submit-Submits, Submits, waiting-zero, fresh-IsValid}
use local_marks.Server.Listen.{
  Arrived, leave_loop, skip, refuse, admit, accept_connection, start_limiter,
}
use local_marks.Server.Counted.{start_limiter-Counted}
use local_marks.Server.System.{
  Main, accepting, submitting, stopping, finished, ServerState, server_start, begin_stop,
  after_arrival, job_left, after_submit, after_work, Step, arrive, shutdown, submit, work, finish,
  join, Reach, here, next,
}
use local_marks.Server.Balance.{IsBalanced, live_conns, held, in_hand, has_stopped, recount}
use local_marks.Server.Steps.{Step-IsBalanced}

module _ (peer : ℕ → Option (Bytes × ℕ)) where
  arrived-arrivals : (s : ServerState) (r : Arrived) → s.arrivals ≤ (after_arrival s r).arrivals
  unfolding after_arrival begin_stop
  arrived-arrivals s leave_loop = omega arith
  arrived-arrivals s skip = omega arith
  arrived-arrivals s (refuse safe rl sent) = omega arith
  arrived-arrivals s (admit rl job) = omega arith

  pub submitted-arrivals :
      (s : ServerState) (now : ℕ) (task : ThreadTask) (r : Submit)
      → s.arrivals ≤ (after_submit peer s now task r).arrivals
  unfolding after_submit job_left
  submitted-arrivals s now task wait_not_full = omega arith
  submitted-arrivals s now task (dropped none) = omega arith
  submitted-arrivals s now task (dropped (some call)) = omega arith
  submitted-arrivals s now task (queued pool) = omega arith

  worked-arrivals : (s : ServerState) (r : Work) → s.arrivals ≤ (after_work peer s r).arrivals
  unfolding after_work
  worked-arrivals s wait_not_empty = omega arith
  worked-arrivals s exit = omega arith
  worked-arrivals s (run task pool) = omega arith

  Step-arrivals : {s t : ServerState} → Step peer s t → s.arrivals ≤ t.arrivals
  Step-arrivals {s} (arrive a at) = arrived-arrivals s (accept_connection peer s.rl a)
  Step-arrivals (shutdown at) = unfold begin_stop in omega arith
  Step-arrivals {s} (submit task now at) =
      submitted-arrivals s now task (thread_pool_submit s.pool task)
  Step-arrivals {s} (work free) = worked-arrivals s (worker_section s.pool)
  Step-arrivals (finish before after task now at) = unfold job_left in omega arith
  Step-arrivals (join at gone) = omega arith

  -- a limiter starts with no connection on its books
  start-IsBalanced :
      (n : ℕ) (alloc_ok : Bool) (now max : ℕ)
      → IsBalanced peer n (server_start n (start_limiter alloc_ok now max))
  start-IsBalanced n alloc_ok now max = record {
    staff = record {
      pool_valid = fresh-IsValid n;
      safe = refl;
      stop_flag = refl;
      workers = refl;
      at_work = omega arith;
      drained = λ gone. absurd (omega arith);
    };
    limiter =
        recount peer {c = λ q. 0}
          {c' = live_conns peer (server_start n (start_limiter alloc_ok now max))} 0 0
          (start_limiter alloc_ok now max) (omega arith)
          (λ q. unfold live_conns in unfold held in rw (waiting-zero (fresh_pool n) refl) refl)
          (start_limiter-Counted alloc_ok now max);
  }

  -- In every state that the server can reach within 2^64 - 2 arrivals, whatever the order of its steps, the
  -- limiter is in order and counts for each address exactly the connections that are about to be submitted,
  -- queued or in a job; no `strcmp` has met NULL; the pool is in order, stops exactly when
  -- `thread_pool_destroy` has been called, and no more workers are at work or gone than there are; and a
  -- worker is gone only from a stopping pool with an empty queue.
  pub Reach-IsBalanced :
      (n : ℕ) (alloc_ok : Bool) (now max : ℕ) {s : ServerState}
      → Reach peer (server_start n (start_limiter alloc_ok now max)) s
      → s.arrivals < 2 ^ 64 - 1
      → IsBalanced peer n s
  Reach-IsBalanced n alloc_ok now max here small = start-IsBalanced n alloc_ok now max
  Reach-IsBalanced n alloc_ok now max (next {t} {u} r st) small =
      let le : t.arrivals < 2 ^ 64 - 1 = omega (arith, Step-arrivals st) in
      Step-IsBalanced peer st le (Reach-IsBalanced n alloc_ok now max r le)

  has_stopped-in_hand : (m : Main) → has_stopped m ≡ true → in_hand m ≡ []
  has_stopped-in_hand accepting h = refl
  has_stopped-in_hand (submitting task) h = absurd (ground arith)
  has_stopped-in_hand stopping h = refl
  has_stopped-in_hand finished h = refl

  pub no_tasks : (ts : List ThreadTask) → length ts ≡ 0 → ts ≡ []
  no_tasks [] h = refl
  no_tasks (t ∷ ts) h = absurd (ground arith)

  -- When all workers of a server with at least one have left, which the joins of `thread_pool_destroy` wait
  -- for, no job waits or runs and no address has a live connection, so the limiter is destroyed unused.
  pub Reach-joined :
      (n : ℕ) (alloc_ok : Bool) (now max : ℕ) {s : ServerState}
      → 0 < n
      → Reach peer (server_start n (start_limiter alloc_ok now max)) s
      → s.arrivals < 2 ^ 64 - 1
      → s.exited ≡ s.pool.num_threads
      → (waiting s.pool ≡ []) × (s.running ≡ []) × ((ip : Bytes) → live_conns peer s ip ≡ 0)
  Reach-joined n alloc_ok now max {s} some_worker r small gone =
      let st = (Reach-IsBalanced n alloc_ok now max r small).staff in
      let (down, idle) = st.drained (omega (arith, st.workers)) in
      let still : s.running ≡ [] = no_tasks s.running (omega (arith, st.at_work, st.workers)) in
      let empty : in_hand s.main ≡ [] = has_stopped-in_hand s.main (sym st.stop_flag ∙ down) in
      (idle, still, λ ip. unfold live_conns in unfold held in rw (idle, still, empty) refl)

  -- The main thread never gets its job dropped by `thread_pool_submit`.
  pub Reach-undropped :
      (n : ℕ) (alloc_ok : Bool) (now max : ℕ) {s : ServerState} {task : ThreadTask}
      (call : Option (ℕ × ℕ))
      → Reach peer (server_start n (start_limiter alloc_ok now max)) s
      → s.arrivals < 2 ^ 64 - 1
      → s.main ≡ submitting task
      → thread_pool_submit s.pool task ≢ dropped call
  Reach-undropped n alloc_ok now max {s} {task} call r small at drop =
      let st = (Reach-IsBalanced n alloc_ok now max r small).staff in
      let sub : Submits s.pool task (dropped call) =
        subst (Submits s.pool task) drop (submit-Submits s.pool task st.pool_valid) in
      absurd (ground (arith, sub.0, st.stop_flag))
