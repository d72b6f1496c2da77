-- ===== src/Server/Balance.antt =====
-- The books of the server: the connections that are queued, in a job or about to be submitted, and what
-- the limiter counts.
use local_marks.Prelude.{
  ℕ, ◌+◌, ◌-◌, ◌^◌, ◌≤◌, ◌<◌, ◌≡◌, inl, inr, refl, ◌∙◌, Bool, true, false, not, ◌||◌, Option, none,
  some, List, [], ◌∷◌, ◌++◌, length, arith, Bool-cases,
}
use local_marks.Prelude.Bytes.{Bytes}
use local_marks.RateLimit.{RateLimit}
use local_marks.ThreadPool.{ThreadTask, thread_pool_stop}
use local_marks.ThreadPool.Queue.{IsValid, waiting}
use local_marks.ThreadPool.Run.{waiting-stop, stop-IsValid}
use local_marks.Server.Listen.{
  Arrival, Arrived, leave_loop, skip, refuse, admit, peer_addr, handle_client_task, AcceptCall,
  connected, interrupted, failed, on_accept,
}
use local_marks.Server.Counted.{
  OrCounted, one_of, Arrives, admit_or_refuse-Arrives, leave_limiter-Counted,
}
use local_marks.Server.System.{
  Main, accepting, submitting, stopping, finished, ServerState, begin_stop, after_arrival, task_ip,
  job_left,
}

-- the task that the main thread has in its hands
abbrev pub in_hand : Main → List ThreadTask
in_hand accepting = []
in_hand (submitting task) = task ∷ []
in_hand stopping = []
in_hand finished = []

-- whether `thread_pool_destroy` has been called
abbrev pub has_stopped : Main → Bool
has_stopped accepting = false
has_stopped (submitting task) = false
has_stopped stopping = true
has_stopped finished = true

module _ (peer : ℕ → Option (Bytes × ℕ)) where
  -- how many of the tasks have their peer at `ip`
  unfoldable pub held : List ThreadTask → Bytes → ℕ
  unfolding one_of
  held [] ip = 0
  held (task ∷ tasks) ip = one_of (task_ip peer task) ip + held tasks ip

  pub held-append :
      (xs ys : List ThreadTask) (ip : Bytes) → held (xs ++ ys) ip ≡ held xs ip + held ys ip
  unfolding held
  held-append [] ys ip = omega arith
  held-append (x ∷ xs) ys ip = omega (arith, held-append xs ys ip)

  -- the live connections of `ip`
  unfoldable pub live_conns : ServerState → Bytes → ℕ
  unfolding held
  live_conns s ip = held (in_hand s.main) ip + held (waiting s.pool) ip + held s.running ip

  -- the pool, its workers and the main thread agree on where they are
  pub record IsStaffed (n : ℕ) (s : ServerState) : Type 0 where
    pub pool_valid : IsValid s.pool
    pub safe : s.safe ≡ true
    pub stop_flag : s.pool.stop ≡ has_stopped s.main
    pub workers : s.pool.num_threads ≡ n
    pub at_work : length s.running + s.exited ≤ n
    pub drained : 0 < s.exited → (s.pool.stop ≡ true) × (waiting s.pool ≡ [])

  pub record IsBalanced (n : ℕ) (s : ServerState) : Type 0 where
    pub staff : IsStaffed n s
    pub limiter : OrCounted (live_conns s) s.arrivals s.rl

  pub recount :
      {c c' : Bytes → ℕ} (bound bound' : ℕ) (rl : Option RateLimit)
      → bound ≤ bound'
      → ((q : Bytes) → c q ≡ c' q)
      → OrCounted c bound rl
      → OrCounted c' bound' rl
  recount bound bound' none le same k = tt
  recount bound bound' (some rl) le same k = record {
    valid = k.valid;
    same = λ q. k.same q ∙ same q;
    used_le = omega (arith, k.used_le);
  }

  pub begin_stop-IsBalanced :
      {n : ℕ} {s : ServerState} → IsBalanced n s → s.main ≡ accepting → IsBalanced n (begin_stop s)
  unfolding begin_stop thread_pool_stop
  begin_stop-IsBalanced {n} {s} b at = record {
    staff = record {
      pool_valid = stop-IsValid b.staff.pool_valid;
      safe = b.staff.safe;
      stop_flag = refl;
      workers = b.staff.workers;
      at_work = b.staff.at_work;
      drained = λ gone. (refl, waiting-stop s.pool ∙ (b.staff.drained gone).1);
    };
    limiter =
        recount {c = live_conns s} {c' = live_conns (begin_stop s)} s.arrivals s.arrivals s.rl
          (omega arith) (λ q. unfold live_conns in rw (at, waiting-stop s.pool) refl) b.limiter;
  }

  pub arrived-IsBalanced :
      {n : ℕ} {s : ServerState} (r : Arrived)
      → IsBalanced n s
      → s.main ≡ accepting
      → Arrives (λ job. task_ip peer (handle_client_task job)) (live_conns s) s.arrivals r
      → IsBalanced n (after_arrival s r)
  unfolding after_arrival
  arrived-IsBalanced leave_loop b at k = begin_stop-IsBalanced b at
  arrived-IsBalanced skip b at k = b
  arrived-IsBalanced {n} {s} (refuse safe rl sent) b at (ok, k) = record {
    staff = record {
      pool_valid = b.staff.pool_valid;
      safe = rw (b.staff.safe, ok) refl;
      stop_flag = b.staff.stop_flag;
      workers = b.staff.workers;
      at_work = b.staff.at_work;
      drained = b.staff.drained;
    };
    limiter = unfold live_conns in k;
  }
  arrived-IsBalanced {n} {s} (admit rl job) b at k = record {
    staff = record {
      pool_valid = b.staff.pool_valid;
      safe = b.staff.safe;
      stop_flag = b.staff.stop_flag ∙ rw at refl;
      workers = b.staff.workers;
      at_work = b.staff.at_work;
      drained = b.staff.drained;
    };
    limiter =
        recount {c = λ q. live_conns s q + one_of (task_ip peer (handle_client_task job)) q}
          {c' = live_conns (after_arrival s (admit rl job))} (s.arrivals + 1) (s.arrivals + 1) rl
          (omega arith) (λ q. unfold live_conns in unfold held in rw at (omega arith)) k;
  }

  pub on_accept-Arrives :
      (c : Bytes → ℕ) (bound : ℕ) (rl : Option RateLimit) (a : Arrival) (call : AcceptCall)
      → OrCounted c bound rl
      → bound < 2 ^ 64 - 1
      → Arrives (λ job. task_ip peer (handle_client_task job)) c bound (on_accept peer rl a call)
  unfolding on_accept task_ip
  on_accept-Arrives c bound rl a interrupted k small = tt
  on_accept-Arrives c bound rl a failed k small = elim (Bool-cases a.g_shutdown) [
    | inl down ↦ rw down tt
    | inr up ↦ rw up tt
  ]
  on_accept-Arrives c bound rl a connected k small = elim (Bool-cases a.g_shutdown) [
    | inl down ↦ rw down tt
    | inr up ↦
        rw up (elim (Bool-cases (not a.transport_ok || not a.handshake_ok || not a.malloc_ok)) [
          | inl broken ↦ rw broken tt
          | inr ready ↦ rw ready (
              admit_or_refuse-Arrives (λ job. (peer_addr (peer job)).0) c bound a.job rl a.mem a.now
                k small)
        ])
  ]

  -- a task that ends takes its connection off the books
  pub job_left-IsBalanced :
      {n : ℕ} {s : ServerState} (now : ℕ) (task : ThreadTask)
      → IsStaffed n s
      → OrCounted (λ q. live_conns s q + one_of (task_ip peer task) q) s.arrivals s.rl
      → IsBalanced n (job_left peer s now task)
  unfolding job_left
  job_left-IsBalanced {n} {s} now task st k =
      let l = leave_limiter-Counted (live_conns s) s.arrivals now s.rl (task_ip peer task) k in
      record {
        staff = record {
          pool_valid = st.pool_valid;
          safe = rw (st.safe, l.0) refl;
          stop_flag = st.stop_flag;
          workers = st.workers;
          at_work = st.at_work;
          drained = st.drained;
        };
        limiter = unfold live_conns in l.1;
      }
