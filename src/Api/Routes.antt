-- ===== src/Api/Routes.antt =====
-- What the endpoints of src/api.c answer.
use local_marks.Prelude.{
  ℕ, inl, inr, refl, Bool, true, false, ◌&&◌, Option, none, some, [], ◌∷◌, leb, if◌then◌else◌,
  length, drop, Bool-cases,
}
use local_marks.Prelude.Bytes.{Bytes, codes, str_eq, starts_with}
use local_marks.Http.{HttpMethod, http_get, http_head, http_other, HttpRequest}
use local_marks.Response.{Response, response_error}
use local_marks.Response.Framing.{IsWhole, response_error-page}
use local_marks.Bookmarks.{Cache, get_cached_bookmark_json_copy}
use local_marks.Bookmarks.Valid.{IsValid}
use local_marks.Bookmarks.Fresh.{get_copy-Got}
use local_marks.DbMeta.{build_databases_json, build_database_json}
use local_marks.Api.{
  Env, send_json_response, parse_index, bookmark_response, serve_bookmark, json_or_error,
  serve_database, has_first_db, serve_rest, bookmark_stem, api_handle_request,
}

abbrev pub IsAnswer : Response × Cache → Type 0
IsAnswer (r, cache) = IsWhole r × IsValid cache

abbrev pub IsAnswerIfAny : Option (Response × Cache) → Type 0
IsAnswerIfAny none = Unit {0}
IsAnswerIfAny (some answer) = IsAnswer answer

bookmark_response-IsAnswer :
    (keep_alive : Bool) (o : Option Bytes × Cache)
    → IsValid o.1
    → IsAnswer (bookmark_response keep_alive o)
unfolding bookmark_response send_json_response
bookmark_response-IsAnswer keep_alive (none, cache) v =
    (response_error-page 500 (some (codes "Cannot load bookmark database")), v)
bookmark_response-IsAnswer keep_alive (some json, cache) v = (refl, v)

json_or_error-IsWhole :
    (keep_alive : Bool) (o : Option Bytes) → IsWhole (json_or_error keep_alive o)
unfolding json_or_error send_json_response
json_or_error-IsWhole keep_alive none = response_error-page 500 (some (codes "Out of memory"))
json_or_error-IsWhole keep_alive (some json) = refl

module _ (env : Env) (cache : Cache) (keep_alive : Bool) (v : IsValid cache) where
  copy-IsAnswer :
      (index : ℕ)
      → IsAnswer (
          bookmark_response keep_alive
            (get_cached_bookmark_json_copy env.mem env.seen env.files cache index))
  copy-IsAnswer index =
      bookmark_response-IsAnswer keep_alive
        (get_cached_bookmark_json_copy env.mem env.seen env.files cache index)
        (get_copy-Got env.mem env.seen env.files cache index v).valid

  serve_bookmark-IsAnswer :
      (idx_str : Bytes) → IsAnswer (serve_bookmark env cache keep_alive idx_str)
  unfolding serve_bookmark
  serve_bookmark-IsAnswer idx_str = elim (Bool-cases (leb 32 (length idx_str))) [
    | inl long ↦ rw long missed
    | inr short ↦ rw short (go (parse_index (length env.g_db_meta) idx_str))
  ]
    where
      missed : IsAnswer (response_error 404 (some (codes "Bookmark index out of range")), cache)
      missed = (response_error-page 404 (some (codes "Bookmark index out of range")), v)

      go :
          (o : Option ℕ)
          → IsAnswer (elim o [
            | none ↦ (response_error 404 (some (codes "Bookmark index out of range")), cache)
            | some index ↦
                bookmark_response keep_alive
                  (get_cached_bookmark_json_copy env.mem env.seen env.files cache index)
          ])
      go none = missed
      go (some index) = copy-IsAnswer index

  serve_database-IsWhole : (rest : Bytes) → IsWhole (serve_database env keep_alive rest)
  unfolding serve_database
  serve_database-IsWhole [] = response_error-page 404 (some (codes "Database index out of range"))
  serve_database-IsWhole (c ∷ rest) = go (parse_index (length env.g_db_meta) (c ∷ rest))
    where
      go :
          (o : Option ℕ)
          → IsWhole (elim o as (λ x. Response) [
            | none ↦ response_error 404 (some (codes "Database index out of range"))
            | some index ↦
                json_or_error keep_alive
                  (build_database_json env.malloc_ok env.leftover env.g_db_meta index)
          ])
      go none = response_error-page 404 (some (codes "Database index out of range"))
      go (some index) =
          json_or_error-IsWhole keep_alive
            (build_database_json env.malloc_ok env.leftover env.g_db_meta index)

  if_answer :
      (b : Bool) (x y : Option (Response × Cache))
      → IsAnswerIfAny x
      → IsAnswerIfAny y
      → IsAnswerIfAny (if b then x else y)
  if_answer true x y p q = p
  if_answer false x y p q = q

  serve_rest-IsAnswerIfAny : (path : Bytes) → IsAnswerIfAny (serve_rest env cache keep_alive path)
  unfolding serve_rest
  serve_rest-IsAnswerIfAny path =
      if_answer (has_first_db env.bookmark_files && str_eq path (codes "/bookmarks.json")) _ _
        (copy-IsAnswer 0)
        (if_answer (str_eq path (codes "/api/databases")) _ _
          (
            json_or_error-IsWhole keep_alive
                (build_databases_json env.malloc_ok env.leftover env.g_db_meta),
            v,
          )
          (if_answer (starts_with (codes "/api/databases/") path) _ _
            (serve_database-IsWhole (drop 15 path), v) tt))

  get-IsAnswerIfAny :
      (path : Bytes) (stem : Option Bytes)
      → IsAnswerIfAny (elim stem [
        | some idx_str ↦ some (serve_bookmark env cache keep_alive idx_str)
        | none ↦ serve_rest env cache keep_alive path
      ])
  get-IsAnswerIfAny path none = serve_rest-IsAnswerIfAny path
  get-IsAnswerIfAny path (some idx_str) = serve_bookmark-IsAnswer idx_str

  -- Every answer of the API, errors included, announces exactly the length of its body, and leaves the
  -- bookmark cache well formed, if it was.
  pub api_handle_request-IsAnswer :
      (req : HttpRequest) → IsAnswerIfAny (api_handle_request env cache req keep_alive)
  unfolding api_handle_request
  api_handle_request-IsAnswer req = go req.method
    where
      go :
          (m : HttpMethod)
          → IsAnswerIfAny (elim m [
            | http_get ↦ elim (bookmark_stem req.path) [
              | some idx_str ↦ some (serve_bookmark env cache keep_alive idx_str)
              | none ↦ serve_rest env cache keep_alive req.path
            ]
            | other ↦ none
          ])
      go http_get = get-IsAnswerIfAny req.path (bookmark_stem req.path)
      go http_head = tt
      go http_other = tt
