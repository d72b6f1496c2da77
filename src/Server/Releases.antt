-- ===== src/Server/Releases.antt =====
-- What `server_run` releases, on every path, against who holds what.
use local_marks.Prelude.{
  ℕ, ◌≡◌, Bool, true, false, not, ◌&&◌, ◌||◌, Option, none, some, List, [], ◌∷◌, if◌then◌else◌,
}
use local_marks.Prelude.Int.{ℤ, pos, negsuc}
use local_marks.RateLimit.{RateLimit}
use local_marks.ThreadPool.{ThreadPool}
use local_marks.Server.Setup.{
  Setup, Release, close_listener, destroy_pool, destroy_limiter, destroy_tls, cleanup_cache,
  cleanup_meta, load_pem,
}

-- What is held. While the pool runs, its workers use the limiter, the cache and the metadata, and, if
-- connections have been served, the TLS context.
pub record Held : Type 0 where
  pub listener : Bool
  pub pool : Bool
  pub limiter : Bool
  pub tls : Bool
  pub cache : Bool
  pub meta : Bool
  pub served : Bool

abbrev pub nothing_held : Bool → Held
nothing_held served = record {
  listener = false;
  pool = false;
  limiter = false;
  tls = false;
  cache = false;
  meta = false;
  served = served;
}

-- One release: none if the thing is not held, or if the workers that use it still run.
unfoldable pub give_back : Held → Release → Option Held
give_back h close_listener = if h.listener then some (record h { listener = false }) else none
give_back h destroy_pool = if h.pool then some (record h { pool = false }) else none
give_back h destroy_limiter =
    if h.limiter && not h.pool then some (record h { limiter = false }) else none
give_back h destroy_tls =
    if h.tls && not (h.pool && h.served) then some (record h { tls = false }) else none
give_back h cleanup_cache =
    if h.cache && not h.pool then some (record h { cache = false }) else none
give_back h cleanup_meta = if h.meta && not h.pool then some (record h { meta = false }) else none

unfoldable pub give_back_all : Option Held → List Release → Option Held
give_back_all none rs = none
give_back_all (some h) [] = some h
give_back_all (some h) (r ∷ rs) = give_back_all (give_back h r) rs

-- whether the certificate and the key can be read and are accepted
abbrev pub loads : Setup → Bool
loads s = load_pem s.cert_ok s.cert_pem && load_pem s.key_ok s.key_pem

abbrev pub is_some {ℓ} : {A : Type ℓ} → Option A → Bool
is_some none = false
is_some (some a) = true

-- whether the accept loop is reached
abbrev pub serves : Setup → Bool
serves s = not s.wants_tls || (s.tls_create_ok && loads s)

-- what `server_run` holds with a listener and a pool
abbrev pub acquired : Setup → Held
acquired s = record {
  listener = true;
  pool = true;
  limiter = is_some s.rl;
  tls = s.wants_tls && s.tls_create_ok;
  cache = true;
  meta = true;
  served = serves s;
}

-- all is given back, and nothing twice or too early, unless there is a context whose files do not load
pub record Releases (s : Setup) (r : ℤ × List Release) : Type 0 where
  pub trace : give_back_all (some (acquired s)) r.1 ≡ (
      if s.wants_tls && s.tls_create_ok && not (loads s)
      then none
      else some (nothing_held (serves s)))
  pub result : r.0 ≡ (if serves s then pos 0 else negsuc 0)

-- Without a listener nothing is released, without a pool the listener alone.
abbrev pub RunsFrom : Setup → Option ℕ → Option ThreadPool → ℤ × List Release → Type 0
RunsFrom s none p r = r ≡ (negsuc 0, [])
RunsFrom s (some lfd) none r = r ≡ (negsuc 0, close_listener ∷ [])
RunsFrom s (some lfd) (some pool) r = Releases s r

abbrev held : Bool → Bool → Bool → Held
held limiter tls served = record {
  listener = true;
  pool = true;
  limiter = limiter;
  tls = tls;
  cache = true;
  meta = true;
  served = served;
}
