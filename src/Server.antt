-- ===== src/Server.antt =====
-- src/server.c: the loop of one connection, whose state is what the socket still delivers and the bookmark
-- cache. The children hold the accept loop, the set-up, and the server at work.
pub mod Connection
pub mod Listen
pub mod Listener
pub mod Setup
pub mod Releases
pub mod System
pub mod Counted
pub mod Balance
pub mod Steps
pub mod Reached
mod Tests
use local_marks.Prelude.{
  ℕ, zero, suc, ◌+◌, ◌-◌, ◌*◌, ◌/◌, ◌%◌, ◌^◌, ◌≤◌, ◌<◌, ◌≡◌, ◌≢◌, ◌↔◌, ◌⊎◌, inl, inr, refl, sym, ap,
  ◌∙◌, Bool, true, false, not, ◌&&◌, ◌||◌, Option, none, some, List, [], ◌∷◌, ◌++◌, map, append-nil,
  append_assoc, min, ltb, leb, ◌==◌, if◌then◌else◌, length, get_or, get_elem?, set, replicate, take,
  drop, arith, tests, All, All-get, All-set, All-append, All-replicate, length-set, length-map,
  length-append, length-replicate, length-take, length-take-le, length-drop, take_of_le,
  get_or-set_self, get_or-set_ne, get_or-replicate, Option-cases, Bool-cases, ==_iff, ltb→lt,
  lt→ltb, leb→le,
}
use local_marks.Prelude.Int.{ℤ, pos, negsuc, pos_part, neg_part, leb_ℤ}
use local_marks.Prelude.Bytes.{Bytes, codes, str_eq, starts_with_nocase, dec, snprintf_s}
use local_marks.Http.{HttpRequest, http_request_cleanup}
use local_marks.Http.Read.{total_length}
use local_marks.Http.Parse.{http_parse_request}
use local_marks.Auth.{auth_check}
use local_marks.Response.{Response, response_error, crlf}
use local_marks.Vfs.{Slots}
use local_marks.File.{file_serve}
use local_marks.Bookmarks.{Cache}
use local_marks.Api.{Env, api_handle_request}

-- the fields of `ServerConfig` that a connection reads
pub record ServerConfig : Type 0 where
  pub host : Bytes
  pub port : ℤ
  pub user : Option Bytes
  pub pass : Option Bytes
  pub print_request : Bool
  pub browser : Option Bytes
  pub bookmark_files : List (Option Bytes)
  pub bookmark_file_count : ℤ
  pub thread_pool_size : ℤ
  pub keep_alive_timeout : ℤ
  pub max_conns_per_ip : ℤ
  pub tls_cert : Option Bytes
  pub tls_key : Option Bytes

-- `strcasestr(s, p) != NULL`
unfoldable pub strcasestr : Bytes → Bytes → Bool
strcasestr p [] = starts_with_nocase p []
strcasestr p (c ∷ s) = starts_with_nocase p (c ∷ s) || strcasestr p s

unfoldable pub wants_keep_alive : HttpRequest → ℤ → Bool
wants_keep_alive req keep_alive_timeout =
    if leb_ℤ keep_alive_timeout (pos 0)
    then false
    else if str_eq req.version (codes "HTTP/1.1")
    then not (strcasestr (codes "close") req.connection)
    else strcasestr (codes "keep-alive") req.connection

-- `auth_send_challenge` of src/auth.c
unfoldable pub auth_send_challenge : Response
auth_send_challenge = record {
  status = 401;
  status_text = codes "Unauthorized";
  mime = some (codes "text/html; charset=utf-8");
  extra_hdrs = some (
      codes "WWW-Authenticate: Basic realm=\"live-server\""
      ++ crlf
      ++ codes "Cache-Control: no-store"
      ++ crlf);
  body = some (codes "<h1>401 Unauthorized</h1>");
  body_len = 25;
  keep_alive = false;
  send_body = true;
}

-- `http_send_status` of src/http.c: the bytes of its two writes
unfoldable pub http_send_status : ℕ → Bytes → Bytes → Bytes
http_send_status status reason body =
    snprintf_s 4096 (
      codes "HTTP/1.1 "
      ++ dec status
      ++ codes " "
      ++ reason
      ++ crlf
      ++ codes "Content-Type: text/html; charset=utf-8"
      ++ crlf
      ++ codes "Content-Length: "
      ++ dec (length body)
      ++ crlf
      ++ codes "Connection: close"
      ++ crlf
      ++ crlf)
    ++ body

-- what one round of the loop sends
pub data Answer : Type 0 where
  bad_request : Bytes → Answer
  challenge : Response → Answer
  answered : HttpRequest → Response → Answer

-- `cfg->user || cfg->pass`
unfoldable pub wants_auth : ServerConfig → Bool
wants_auth cfg = elim cfg.user [
  | some user ↦ true
  | none ↦ elim cfg.pass [ some pass ↦ true | none ↦ false ]
]

-- the API, or else a file
unfoldable pub dispatch : Env → Slots → Cache → HttpRequest → Bool → Response × Cache
dispatch env slots cache req keep_alive = elim (api_handle_request env cache req keep_alive) [
  | some answer ↦ answer
  | none ↦ (file_serve slots req keep_alive, cache)
]

-- one round of the surroundings: the files and memory, and the shutdown flag at its end
pub record Round : Type 0 where
  pub env : Env
  pub raw_ok : Bool
  pub g_shutdown : Bool

-- The loop of `handle_client`, with the answers so far; `rounds n` is the n-th round. None is the end of
-- the fuel.
unfoldable pub handle_requests :
    ServerConfig
    → Slots
    → (ℕ → Round)
    → ℕ
    → ℕ
    → List Bytes
    → Cache
    → List Answer
    → Option (List Answer × Cache)
handle_requests cfg slots rounds n zero segments cache log = none
handle_requests cfg slots rounds n (suc fuel) segments cache log =
    let ((parsed, req), segments') = http_parse_request (rounds n).raw_ok segments in
    let keep_alive = wants_keep_alive req cfg.keep_alive_timeout in
    let (response, cache') = dispatch (rounds n).env slots cache req keep_alive in
    let rest =
      handle_requests cfg slots rounds (n + 1) fuel segments' cache'
        (log ++ answered req response ∷ []) in
    if not parsed
    then some (
      log
          ++ bad_request
              (http_send_status 400 (codes "Bad Request") (codes "<h1>400 Bad Request</h1>"))
            ∷ [],
      cache,
    )
    else if wants_auth cfg && not (auth_check req.auth cfg.user cfg.pass)
    then some (log ++ challenge auth_send_challenge ∷ [], cache)
    else if not keep_alive || (rounds n).g_shutdown
    then some (log ++ answered req response ∷ [], cache')
    else rest

-- `handle_client` without its end (the rate limiter is left and the transport destroyed): every round
-- but the last reads a byte at least.
unfoldable pub handle_client :
    ServerConfig → Slots → (ℕ → Round) → List Bytes → Cache → Option (List Answer × Cache)
handle_client cfg slots rounds segments cache =
    handle_requests cfg slots rounds 0 (total_length segments + 1) segments cache []
