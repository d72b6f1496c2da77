-- ===== src/Server/Tests.antt =====
-- Runs of src/server.c.
use local_marks.Prelude.{true, false, none, some, List, [], ◌∷◌, ◌++◌, replicate}
use local_marks.Prelude.Bytes.{Bytes, codes}
use local_marks.Prelude.Int.{pos}
use local_marks.Vfs.{Slots}
use local_marks.Bookmarks.{Files, bookmark_cache_init}
use local_marks.Server.{ServerConfig, Round, handle_client}
use local_marks.Server.Connection.{AllAllowed, handle_client-AllAllowed}
use local_marks.Prelude.{ℕ, ◌≡◌, refl, arith, Option, if◌then◌else◌}
use local_marks.RateLimit.{ratelimit_accept, ratelimit_create, is_vacant, same_ip}
use local_marks.Hash.{hash_ip}
use local_marks.Probe.{probe}
use local_marks.Prelude.Bytes.{str_eq}
use local_marks.ThreadPool.{thread_pool_submit, worker_section, thread_pool_stop}
use local_marks.ThreadPool.Queue.{waiting}
use local_marks.Server.Listen.{
  Candidate, make_listener, Arrival, connected, accept_connection, handle_client_task,
  start_limiter, peer_addr,
}
use local_marks.Server.System.{
  ServerState, server_start, Reach, here, next, arrive, submit, work, finish, shutdown, submitting,
  begin_stop, after_arrival, after_submit, after_work, job_left,
}
use local_marks.Server.Balance.{IsBalanced, live_conns}
use local_marks.Server.Reached.{Reach-IsBalanced, Reach-joined}
use local_marks.Server.Listener.{make_listener-NoLeak, opened, kept, tried, first_bound}
use local_marks.ThreadPool.{fresh_pool}
use local_marks.Server.Setup.{Setup}
use local_marks.Server.Releases.{Releases}

abbrev cfg : ServerConfig
cfg = record {
  host = codes "localhost";
  port = pos 8080;
  user = some (codes "u");
  pass = some (codes "p");
  print_request = false;
  browser = none;
  bookmark_files = some (codes "a.json") ∷ replicate 9 none;
  bookmark_file_count = pos 1;
  thread_pool_size = pos 4;
  keep_alive_timeout = pos 5;
  max_conns_per_ip = pos 2;
  tls_cert = none;
  tls_key = none;
}

abbrev no_files : Files
no_files = record {
  fopen = λ path. none;
  stat_mtime = λ path. none;
  stat_after_load = λ path. none;
}

abbrev round : Round
round = record {
  env = record {
    bookmark_files = [];
    g_db_meta = [];
    mem = record { load_ok = true; copy_ok = true };
    seen = no_files;
    files = no_files;
    malloc_ok = true;
    leftover = [];
  };
  raw_ok = true;
  g_shutdown = false;
}

abbrev slots : Slots
slots = replicate 64 none

-- a request with credentials, and the end of the stream
abbrev segments : List Bytes
segments =
    (codes "GET / HTTP/1.1"
      ++ 13 ∷ 10 ∷ codes "Authorization: Basic dTpw"
      ++ 13 ∷ 10 ∷ 13 ∷ 10 ∷ [])
    ∷ []

handle_client-AllAllowed_example :
    AllAllowed cfg (handle_client cfg slots (λ n. round) segments bookmark_cache_init)
handle_client-AllAllowed_example =
    handle_client-AllAllowed cfg slots (λ n. round) segments bookmark_cache_init

-- one peer, whatever the job
abbrev peer : ℕ → Option (Bytes × ℕ)
peer job = some (codes "10.0.0.1", 4000)

abbrev arrival : ℕ → Arrival
arrival job = record {
  accept_call = connected;
  g_shutdown = false;
  transport_ok = true;
  handshake_ok = true;
  malloc_ok = true;
  mem = record { calloc_ok = true; strdup_ok = true };
  now = 1;
  job = job;
}

abbrev begun : ServerState
begun = server_start 1 (start_limiter true 0 2)

served : Unit {0}
unfolding start_limiter ratelimit_create accept_connection ratelimit_accept hash_ip probe is_vacant
    same_ip str_eq peer_addr after_arrival after_submit after_work job_left begin_stop
    thread_pool_submit worker_section thread_pool_stop
served = tt

abbrev with_job : ServerState
with_job = after_arrival begun (accept_connection peer begun.rl (arrival 7))

-- a connection that the main thread is about to submit
reached_job : Reach peer begun with_job
reached_job = next here (arrive (arrival 7) refl)

with_job_at : (with_job.main ≡ submitting (handle_client_task 7)) × (with_job.arrivals ≡ 1)
unfolding served
with_job_at = (refl, refl)

Reach-IsBalanced_example : IsBalanced peer 1 with_job
Reach-IsBalanced_example =
    Reach-IsBalanced peer 1 true 0 2 reached_job (rw (with_job_at.1) (omega arith))

-- the job is queued, runs and ends; the server stops and its worker leaves
abbrev job_queued : ServerState
job_queued =
    after_submit peer with_job 2 (handle_client_task 7)
      (thread_pool_submit with_job.pool (handle_client_task 7))

abbrev job_running : ServerState
job_running = after_work peer job_queued (worker_section job_queued.pool)

abbrev job_done : ServerState
job_done = job_left peer (record job_running { running = [] }) 3 (handle_client_task 7)

abbrev emptied : ServerState
emptied = after_work peer (begin_stop job_done) (worker_section (begin_stop job_done).pool)

reached_end : Reach peer begun emptied
unfolding served
reached_end =
    next
      (next
        (next (next (next reached_job (submit (handle_client_task 7) 2 refl)) (work (omega arith)))
          (finish [] [] (handle_client_task 7) 3 refl))
        (shutdown refl))
      (work (omega arith))

emptied_at : (emptied.exited ≡ emptied.pool.num_threads) × (emptied.arrivals ≡ 1)
unfolding served
emptied_at = (refl, refl)

Reach-joined_example :
    (waiting emptied.pool ≡ [])
    × (emptied.running ≡ [])
    × ((ip : Bytes) → live_conns peer emptied ip ≡ 0)
Reach-joined_example =
    Reach-joined peer 1 true 0 2 (omega arith) reached_end (rw (emptied_at.1) (omega arith))
      (emptied_at.0)

-- an address without a socket, one that does not bind, one that does
abbrev addresses : List Candidate
addresses =
    record { socket = none; bind_ok = false }
    ∷ record { socket = some 4; bind_ok = false }
    ∷ record { socket = some 5; bind_ok = true }
    ∷ []

make_listener-NoLeak_example :
    (opened (tried addresses)
      ≡ (make_listener (some addresses) false).1 ++ kept (make_listener (some addresses) false).0)
    × ((make_listener (some addresses) false).0 ≡ (if false then first_bound addresses else none))
make_listener-NoLeak_example = make_listener-NoLeak addresses false

-- a certificate that cannot be read: the context is destroyed twice
abbrev no_cert : Setup
no_cert = record {
  lfd = some 3;
  pool = some (fresh_pool 1);
  rl = none;
  wants_tls = true;
  tls_create_ok = true;
  cert_pem = none;
  cert_ok = λ pem. true;
  key_pem = none;
  key_ok = λ pem. true;
}
