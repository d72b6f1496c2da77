-- ===== src/Server/Connection.antt =====
-- The loop of `handle_client` of src/server.c: whom it answers, and that it ends.
use local_marks.Prelude.{
  ℕ, zero, suc, ◌+◌, ◌<◌, ◌≡◌, inl, inr, refl, Bool, true, false, not, ◌&&◌, ◌||◌, Option, none,
  some, List, [], ◌∷◌, ◌++◌, if◌then◌else◌, arith, All, All-append, Bool-cases,
}
use local_marks.Prelude.Bytes.{Bytes, codes}
use local_marks.Http.{HttpRequest}
use local_marks.Http.Read.{total_length}
use local_marks.Http.Parse.{http_parse_request}
use local_marks.Http.Progress.{Progress, http_parse_request-Progress}
use local_marks.Http.Safety.{IsSafe, SafeIfAccepted}
use local_marks.Http.Accepted.{http_parse_request-safe}
use local_marks.Auth.{auth_check}
use local_marks.Response.{Response}
use local_marks.Vfs.{Slots}
use local_marks.Bookmarks.{Cache}
use local_marks.Server.{
  ServerConfig, wants_keep_alive, auth_send_challenge, http_send_status, Answer, bad_request,
  challenge, answered, wants_auth, dispatch, Round, handle_requests, handle_client,
}

-- a request that is answered is authorised, if that is asked for, and its path is safe
abbrev pub Allowed : ServerConfig → Answer → Type 0
Allowed cfg (bad_request text) = Unit {0}
Allowed cfg (challenge response) = Unit {0}
Allowed cfg (answered req response) =
    (wants_auth cfg ≡ true → auth_check req.auth cfg.user cfg.pass ≡ true) × IsSafe req.path

-- the end of a connection
abbrev pub AllAllowed : ServerConfig → Option (List Answer × Cache) → Type 0
AllAllowed cfg none = ⊥
AllAllowed cfg (some (log, cache)) = All (Allowed cfg) log

-- one round, with what the next rounds do
abbrev one_round :
    ServerConfig
    → Bool
    → List Answer
    → Cache
    → (Bool × HttpRequest) × List Bytes
    → Response × Cache
    → Bool
    → Option (List Answer × Cache)
    → Option (List Answer × Cache)
one_round cfg shutdown log cache ((parsed, req), segments') (response, cache') keep_alive rest =
    if not parsed
    then some (
      log
          ++ bad_request
              (http_send_status 400 (codes "Bad Request") (codes "<h1>400 Bad Request</h1>"))
            ∷ [],
      cache,
    )
    else if wants_auth cfg && not (auth_check req.auth cfg.user cfg.pass)
    then some (log ++ challenge auth_send_challenge ∷ [], cache)
    else if not keep_alive || shutdown
    then some (log ++ answered req response ∷ [], cache')
    else rest

not_refused : (wants good : Bool) → wants && not good ≡ false → wants ≡ true → good ≡ true
not_refused true true h k = refl
not_refused true false h k = ground arith
not_refused false good h k = ground arith

one_round-AllAllowed :
    (cfg : ServerConfig) (shutdown : Bool) (log : List Answer) (cache : Cache)
    (segments : List Bytes) (p : (Bool × HttpRequest) × List Bytes) (d : Response × Cache)
    (keep_alive : Bool) (rest : Option (List Answer × Cache))
    → All (Allowed cfg) log
    → SafeIfAccepted p.0
    → Progress segments p
    → (total_length p.1 < total_length segments
        → All (Allowed cfg) (log ++ answered p.0.1 d.0 ∷ [])
        → AllAllowed cfg rest)
    → AllAllowed cfg (one_round cfg shutdown log cache p d keep_alive rest)
one_round-AllAllowed cfg shutdown log cache segments ((false, req), segments') (response, cache')
      keep_alive rest before safe progress ih =
    All-append (Allowed cfg) log _ before (tt, tt)
one_round-AllAllowed cfg shutdown log cache segments ((true, req), segments') (response, cache')
      keep_alive rest before safe progress ih =
    elim (Bool-cases (wants_auth cfg && not (auth_check req.auth cfg.user cfg.pass))) [
      | inl refused ↦
          rw refused
            (All-append (Allowed cfg) log (challenge auth_send_challenge ∷ []) before (tt, tt))
      | inr authorised ↦
          let now = All-append (Allowed cfg) log (answered req response ∷ []) before (
            (
              not_refused (wants_auth cfg) (auth_check req.auth cfg.user cfg.pass) authorised,
              safe refl,
            ),
            tt,
          ) in
          elim (Bool-cases (not keep_alive || shutdown)) [
            | inl last ↦ rw (authorised, last) now
            | inr more ↦ rw (authorised, more) (ih (progress refl) now)
          ]
    ]

module _ (cfg : ServerConfig) (slots : Slots) (rounds : ℕ → Round) where
  handle_requests-AllAllowed :
      (n fuel : ℕ) (segments : List Bytes) (cache : Cache) (log : List Answer)
      → total_length segments < fuel
      → All (Allowed cfg) log
      → AllAllowed cfg (handle_requests cfg slots rounds n fuel segments cache log)
  unfolding handle_requests
  handle_requests-AllAllowed n zero segments cache log enough before = absurd (omega arith)
  handle_requests-AllAllowed n (suc fuel) segments cache log enough before =
      let p = http_parse_request (rounds n).raw_ok segments in
      let keep_alive = wants_keep_alive p.0.1 cfg.keep_alive_timeout in
      let d = dispatch (rounds n).env slots cache p.0.1 keep_alive in
      one_round-AllAllowed cfg (rounds n).g_shutdown log cache segments p d keep_alive
        (handle_requests cfg slots rounds (n + 1) fuel p.1 d.1 (log ++ answered p.0.1 d.0 ∷ []))
        before (http_parse_request-safe (rounds n).raw_ok segments)
        (http_parse_request-Progress (rounds n).raw_ok segments)
        (λ less now.
          handle_requests-AllAllowed (n + 1) fuel p.1 d.1 (log ++ answered p.0.1 d.0 ∷ [])
            (omega arith) now)

  -- A connection always ends, whatever the socket delivers; and every request that the API or the file
  -- server answered on it carried the configured credentials, if there are any, and a path without
  -- "..", also with keep-alive.
  pub handle_client-AllAllowed :
      (segments : List Bytes) (cache : Cache)
      → AllAllowed cfg (handle_client cfg slots rounds segments cache)
  unfolding handle_client
  handle_client-AllAllowed segments cache =
      handle_requests-AllAllowed 0 (total_length segments + 1) segments cache [] (omega arith) tt
