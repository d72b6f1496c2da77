-- ===== src/Server/Setup.antt =====
-- How `server_run` of src/server.c gets its resources and gives them back. What the calls answer is an
-- argument, as is the TLS library.
use local_marks.Prelude.{
  ℕ, Bool, true, false, not, ◌||◌, Option, none, some, List, [], ◌∷◌, ◌++◌, if◌then◌else◌, take,
}
use local_marks.Prelude.Bytes.{Bytes, codes, dec, snprintf_s}
use local_marks.Prelude.Int.{ℤ, pos, negsuc}
use local_marks.RateLimit.{RateLimit}
use local_marks.ThreadPool.{ThreadPool}

-- `read_file_to_buffer` on a file with this content, none if `fopen` fails; `nread` is what `fread`
-- answers
unfoldable pub read_file_to_buffer : Option Bytes → Bool → Bool → ℕ → Option Bytes
read_file_to_buffer none ftell_ok malloc_ok nread = none
read_file_to_buffer (some content) ftell_ok malloc_ok nread =
    if not ftell_ok || not malloc_ok then none else some (take nread content)

-- the URL that `open_browser` hands to the browser, cut to its buffer
unfoldable pub browser_url : Bool → Bytes → ℕ → Bytes
browser_url tls host port = snprintf_s 256 (
    codes "http" ++ (if tls then codes "s" else []) ++ codes "://" ++ host ++ codes ":" ++ dec port)

-- What the set-up meets: the listener, the pool and the limiter that the calls give, whether the
-- configuration names a certificate and a key, the context, the two files as `read_file_to_buffer`
-- gives them, and what the library says of their contents.
pub record Setup : Type 0 where
  pub lfd : Option ℕ
  pub pool : Option ThreadPool
  pub rl : Option RateLimit
  pub wants_tls : Bool
  pub tls_create_ok : Bool
  pub cert_pem : Option Bytes
  pub cert_ok : Bytes → Bool
  pub key_pem : Option Bytes
  pub key_ok : Bytes → Bool

-- what is given back, in the order of the calls
pub data Release : Type 0 where
  close_listener : Release
  destroy_pool : Release
  destroy_limiter : Release
  destroy_tls : Release
  cleanup_cache : Release
  cleanup_meta : Release

-- how the TLS part ends; a failure tells whether `tls_master` has been destroyed and is not NULL
pub data TlsSetup : Type 0 where
  plain : TlsSetup
  ready : TlsSetup
  failed : Bool → TlsSetup

unfoldable pub load_pem : (Bytes → Bool) → Option Bytes → Bool
load_pem load_ok none = false
load_pem load_ok (some pem) = load_ok pem

unfoldable pub tls_setup : Setup → TlsSetup
unfolding load_pem
tls_setup s =
    if not s.wants_tls
    then plain
    else if not s.tls_create_ok
    then failed false
    else if not (load_pem s.cert_ok s.cert_pem)
    then failed true
    else if not (load_pem s.key_ok s.key_pem)
    then failed true
    else ready

-- `if (rl) ratelimit_destroy(rl)`
unfoldable pub release_limiter : Option RateLimit → List Release
release_limiter none = []
release_limiter (some rl) = destroy_limiter ∷ []

-- `if (tls_master) tls_destroy_context(tls_master)`
unfoldable pub release_tls : Bool → List Release
release_tls tls_master = if tls_master then destroy_tls ∷ [] else []

-- the end of `server_run`, the same on both of its paths
unfoldable pub release_all : Option RateLimit → Bool → List Release
unfolding release_limiter release_tls
release_all rl tls_master =
    close_listener ∷ destroy_pool ∷ release_limiter rl
    ++ release_tls tls_master
    ++ cleanup_cache ∷ cleanup_meta ∷ []

-- from the TLS part on; behind a success is the accept loop
unfoldable pub run_tls : Option RateLimit → TlsSetup → ℤ × List Release
unfolding release_all
run_tls rl plain = (pos 0, release_all rl false)
run_tls rl ready = (pos 0, release_all rl true)
run_tls rl (failed destroyed) = (negsuc 0, release_tls destroyed ++ release_all rl destroyed)

unfoldable pub run_pool : Setup → Option ThreadPool → ℤ × List Release
unfolding run_tls tls_setup
run_pool s none = (negsuc 0, close_listener ∷ [])
run_pool s (some pool) = run_tls s.rl (tls_setup s)

-- the result of `server_run`, and what it released
unfoldable pub run_listener : Setup → Option ℕ → ℤ × List Release
unfolding run_pool
run_listener s none = (negsuc 0, [])
run_listener s (some lfd) = run_pool s s.pool

unfoldable pub server_run : Setup → ℤ × List Release
unfolding run_listener
server_run s = run_listener s s.lfd
