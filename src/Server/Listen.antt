-- ===== src/Server/Listen.antt =====
-- The accept loop of `server_run` in src/server.c, a round at a time, with the listener and the address
-- of a peer. What the system calls answer is an argument; a job is a number that is not used twice.
use local_marks.Prelude.{
  ℕ, Bool, true, false, not, ◌||◌, Option, none, some, List, [], ◌∷◌, ◌++◌, ltb, if◌then◌else◌,
}
use local_marks.Prelude.Bytes.{Bytes, codes, snprintf_s}
use local_marks.RateLimit.{
  RateLimit, Alloc, Verdict, allowed, denied, fault, ratelimit_accept, ratelimit_leave,
  ratelimit_create,
}
use local_marks.ThreadPool.{ThreadTask}
use local_marks.Server.{http_send_status}

-- `socket` and `bind` for one address of `getaddrinfo`; a failed `socket` is none
pub record Candidate : Type 0 where
  pub socket : Option ℕ
  pub bind_ok : Bool

-- The loop of `make_listener`: the descriptor that is bound, and those that were closed again.
unfoldable pub bind_first : List Candidate → List ℕ → Option ℕ × List ℕ
bind_first [] closed = (none, closed)
bind_first (c ∷ cs) closed = elim c.socket [
  | none ↦ bind_first cs closed
  | some lfd ↦ if c.bind_ok then (some lfd, closed) else bind_first cs (closed ++ lfd ∷ [])
]

-- the call of `listen`
unfoldable pub listen_on : Bool → Option ℕ × List ℕ → Option ℕ × List ℕ
listen_on listen_ok (none, closed) = (none, closed)
listen_on listen_ok (some lfd, closed) =
    if listen_ok then (some lfd, closed) else (none, closed ++ lfd ∷ [])

-- `make_listener`; none is the -1. `addresses` is none if `getaddrinfo` fails.
unfoldable pub make_listener : Option (List Candidate) → Bool → Option ℕ × List ℕ
unfolding listen_on bind_first
make_listener none listen_ok = (none, [])
make_listener (some cs) listen_ok = listen_on listen_ok (bind_first cs [])

-- `peer_addr`: the text of `inet_ntop` and the port, of either family; none if `getpeername` fails
unfoldable pub peer_addr : Option (Bytes × ℕ) → Bytes × ℕ
peer_addr none = (codes "?", 0)
peer_addr (some (ip, port)) = (snprintf_s 46 ip, port)

-- how `accept` ends: with a descriptor, with EINTR, or with another error
pub data AcceptCall : Type 0 where
  connected : AcceptCall
  interrupted : AcceptCall
  failed : AcceptCall

-- What one round meets: the call of `accept`, the shutdown flag after it, whether `transport_new`,
-- `transport_accept` and `malloc` succeed, the clock and memory for the limiter, and the job.
pub record Arrival : Type 0 where
  pub accept_call : AcceptCall
  pub g_shutdown : Bool
  pub transport_ok : Bool
  pub handshake_ok : Bool
  pub malloc_ok : Bool
  pub mem : Alloc
  pub now : ℕ
  pub job : ℕ

-- How a round ends: `break`, `continue` (with what was sent, if anything), or a job to submit. The
-- second has the flag of a `strcmp` on NULL.
pub data Arrived : Type 0 where
  leave_loop : Arrived
  skip : Arrived
  refuse : Bool → RateLimit → Bytes → Arrived
  admit : Option RateLimit → ℕ → Arrived

-- what the verdict leads to; a refused client gets a 429
unfoldable pub on_verdict : ℕ → Verdict × RateLimit → Arrived
on_verdict job (allowed, rl) = admit (some rl) job
on_verdict job (denied, rl) =
    refuse true rl
      (http_send_status 429 (codes "Too Many Requests") (codes "<h1>429 Too Many Requests</h1>"))
on_verdict job (fault, rl) = refuse false rl []

-- `rl && ratelimit_accept(rl, job->client_ip) != 0`
unfoldable pub admit_or_refuse : Option RateLimit → Alloc → ℕ → Bytes → ℕ → Arrived
unfolding on_verdict
admit_or_refuse none mem now client_ip job = admit none job
admit_or_refuse (some rl) mem now client_ip job =
    on_verdict job (ratelimit_accept mem now rl client_ip)

-- a round by how `accept` ended
unfoldable pub on_accept :
    (ℕ → Option (Bytes × ℕ)) → Option RateLimit → Arrival → AcceptCall → Arrived
unfolding admit_or_refuse peer_addr
on_accept peer rl a interrupted = skip
on_accept peer rl a failed = if a.g_shutdown then leave_loop else skip
on_accept peer rl a connected =
    if a.g_shutdown
    then leave_loop
    else if not a.transport_ok || not a.handshake_ok || not a.malloc_ok
    then skip
    else admit_or_refuse rl a.mem a.now (peer_addr (peer a.job)).0 a.job

-- one round, from `accept` to the call of `thread_pool_submit`
unfoldable pub accept_connection : (ℕ → Option (Bytes × ℕ)) → Option RateLimit → Arrival → Arrived
unfolding on_accept
accept_connection peer rl a = on_accept peer rl a a.accept_call

-- the task of `thread_pool_submit(pool, handle_client, client_job_drop, job)`
abbrev pub handle_client_task : ℕ → ThreadTask
handle_client_task job = record { func = 1; drop_func = some 2; arg = some job }

-- The end of `handle_client`, and `client_job_drop`: the limiter is left. The flag is false for a
-- `strcmp` on NULL.
unfoldable pub leave_limiter : ℕ → Option RateLimit → Bytes → Bool × Option RateLimit
leave_limiter now none client_ip = (true, none)
leave_limiter now (some rl) client_ip =
    let (safe, rl') = ratelimit_leave now rl client_ip in (safe, some rl')

-- `if (cfg->max_conns_per_ip > 0) rl = ratelimit_create(cfg->max_conns_per_ip)`
unfoldable pub start_limiter : Bool → ℕ → ℕ → Option RateLimit
start_limiter alloc_ok now max_conns_per_ip =
    if ltb 0 max_conns_per_ip then ratelimit_create alloc_ok now max_conns_per_ip else none
