-- ===== src/Server/Steps.antt =====
-- The steps of the server, one kind at a time, and its books.
use local_marks.Prelude.{
  ℕ, ◌+◌, ◌-◌, ◌^◌, ◌<◌, ◌≡◌, refl, ◌∙◌, Option, none, List, [], ◌∷◌, ◌++◌, length, arith,
  length-append,
}
use local_marks.Prelude.Bytes.{Bytes}
use local_marks.ThreadPool.{
  ThreadTask, Submit, wait_not_full, dropped, queued, thread_pool_submit, Work, wait_not_empty,
  exit, run, worker_section,
}
use local_marks.ThreadPool.Queue.{waiting, submit-Submits, Submits, worker-Works, Works}
use local_marks.Server.Listen.{accept_connection}
use local_marks.Server.Counted.{one_of}
use local_marks.Server.System.{
  submitting, stopping, finished, ServerState, task_ip, job_left, after_submit, after_work, Step,
  arrive, shutdown, submit, work, finish, join,
}
use local_marks.Server.Balance.{
  IsBalanced, live_conns, held, recount, held-append, begin_stop-IsBalanced, arrived-IsBalanced,
  on_accept-Arrives, job_left-IsBalanced,
}

module _ (peer : ℕ → Option (Bytes × ℕ)) where
  pub submitted-IsBalanced :
      {n : ℕ} {s : ServerState} (now : ℕ) (task : ThreadTask) (r : Submit)
      → IsBalanced peer n s
      → s.main ≡ submitting task
      → Submits s.pool task r
      → IsBalanced peer n (after_submit peer s now task r)
  unfolding after_submit
  submitted-IsBalanced now task wait_not_full b at w = b
  submitted-IsBalanced now task (dropped call) b at w = absurd (ground (arith, b.staff.stop_flag))
  submitted-IsBalanced {n} {s} now task (queued pool) b at (up, q) = record {
    staff = record {
      pool_valid = q.valid;
      safe = b.staff.safe;
      stop_flag = q.same_stop ∙ up;
      workers = q.same_threads ∙ b.staff.workers;
      at_work = b.staff.at_work;
      drained = λ gone. absurd (ground (arith, (b.staff.drained gone).0));
    };
    limiter =
        recount peer {c = live_conns peer s}
          {c' = live_conns peer (after_submit peer s now task (queued pool))} s.arrivals s.arrivals
          s.rl (omega arith)
          (λ q'.
            unfold live_conns in
            unfold held in
            rw (at, q.line) (omega (arith, held-append peer (waiting s.pool) (task ∷ []) q')))
          b.limiter;
  }

  pub worked-IsBalanced :
      {n : ℕ} {s : ServerState} (r : Work)
      → IsBalanced peer n s
      → length s.running + s.exited < s.pool.num_threads
      → Works s.pool r
      → IsBalanced peer n (after_work peer s r)
  unfolding after_work
  worked-IsBalanced wait_not_empty b free w = b
  worked-IsBalanced {n} {s} exit b free (idle, down) = record {
    staff = record {
      pool_valid = b.staff.pool_valid;
      safe = b.staff.safe;
      stop_flag = b.staff.stop_flag;
      workers = b.staff.workers;
      at_work = omega (arith, b.staff.workers);
      drained = λ _. (down, idle);
    };
    limiter = unfold live_conns in b.limiter;
  }
  worked-IsBalanced {n} {s} (run task pool) b free (v, line, same, same_threads) = record {
    staff = record {
      pool_valid = v;
      safe = b.staff.safe;
      stop_flag = same ∙ b.staff.stop_flag;
      workers = same_threads ∙ b.staff.workers;
      at_work = omega (arith, b.staff.workers);
      drained = λ gone. ground (arith, b.staff.drained gone);
    };
    limiter =
        recount peer {c = live_conns peer s}
          {c' = live_conns peer (after_work peer s (run task pool))} s.arrivals s.arrivals s.rl
          (omega arith) (λ q'. unfold live_conns in unfold held in rw line (omega arith)) b.limiter;
  }

  pub finished-IsBalanced :
      {n : ℕ} {s : ServerState} (before after : List ThreadTask) (task : ThreadTask) (now : ℕ)
      → s.running ≡ before ++ task ∷ after
      → IsBalanced peer n s
      → IsBalanced peer n (job_left peer (record s { running = before ++ after }) now task)
  finished-IsBalanced {n} {s} before after task now at b =
      job_left-IsBalanced peer {s = record s { running = before ++ after }} now task
        (record {
          pool_valid = b.staff.pool_valid;
          safe = b.staff.safe;
          stop_flag = b.staff.stop_flag;
          workers = b.staff.workers;
          at_work = ground (
            arith,
            b.staff.at_work,
            length-append before (task ∷ after),
            length-append before after,
          );
          drained = b.staff.drained;
        })
        (recount peer {c = live_conns peer s}
          {c' = λ q.
            live_conns peer (record s { running = before ++ after }) q
            + one_of (task_ip peer task) q}
          s.arrivals s.arrivals s.rl (omega arith)
          (λ q.
            unfold live_conns in
            unfold held in
            rw at (
              omega
                (arith, held-append peer before (task ∷ after) q, held-append peer before after q)))
          b.limiter)

  joined-IsBalanced :
      {n : ℕ} {s : ServerState}
      → s.main ≡ stopping
      → IsBalanced peer n s
      → IsBalanced peer n (record s { main = finished; rl = none })
  joined-IsBalanced {n} {s} at b = record {
    staff = record {
      pool_valid = b.staff.pool_valid;
      safe = b.staff.safe;
      stop_flag = b.staff.stop_flag ∙ rw at refl;
      workers = b.staff.workers;
      at_work = b.staff.at_work;
      drained = b.staff.drained;
    };
    limiter = tt;
  }

  pub Step-IsBalanced :
      {n : ℕ} {s t : ServerState}
      → Step peer s t
      → s.arrivals < 2 ^ 64 - 1
      → IsBalanced peer n s
      → IsBalanced peer n t
  Step-IsBalanced {n} {s} (arrive a at) small b =
      arrived-IsBalanced peer (accept_connection peer s.rl a) b at (
        unfold accept_connection in
        on_accept-Arrives peer (live_conns peer s) s.arrivals s.rl a a.accept_call b.limiter small)
  Step-IsBalanced (shutdown at) small b = begin_stop-IsBalanced peer b at
  Step-IsBalanced {n} {s} (submit task now at) small b =
      submitted-IsBalanced now task (thread_pool_submit s.pool task) b at
        (submit-Submits s.pool task b.staff.pool_valid)
  Step-IsBalanced {n} {s} (work free) small b =
      worked-IsBalanced (worker_section s.pool) b free (worker-Works s.pool b.staff.pool_valid)
  Step-IsBalanced (finish before after task now at) small b =
      finished-IsBalanced before after task now at b
  Step-IsBalanced (join at gone) small b = joined-IsBalanced at b
