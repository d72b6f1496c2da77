-- ===== src/Api.antt =====
-- src/api.c: the JSON endpoints. What the files, the allocator and the configuration are at the time of
-- the call is the record Env. The log lines are left out.
pub mod Routes
mod Tests
use local_marks.Prelude.{
  ℕ, zero, suc, ◌+◌, ◌-◌, ◌*◌, ◌/◌, ◌%◌, ◌^◌, ◌≤◌, ◌<◌, ◌≡◌, ◌≢◌, ◌↔◌, ◌⊎◌, inl, inr, refl, sym, ap,
  ◌∙◌, Bool, true, false, not, ◌&&◌, ◌||◌, Option, none, some, List, [], ◌∷◌, ◌++◌, map, append-nil,
  append_assoc, min, ltb, leb, ◌==◌, if◌then◌else◌, length, get_or, get_elem?, set, replicate, take,
  drop, arith, tests, All, All-get, All-set, All-append, All-replicate, length-set, length-map,
  length-append, length-replicate, length-take, length-take-le, length-drop, take_of_le,
  get_or-set_self, get_or-set_ne, get_or-replicate, Option-cases, Bool-cases, ==_iff, ltb→lt,
  lt→ltb, leb→le,
}
use local_marks.Prelude.Int.{ℤ, pos, negsuc}
use local_marks.Prelude.Bytes.{Bytes, codes, str_eq, starts_with, strstr, snprintf_s}
use local_marks.Http.{HttpMethod, http_get, http_head, http_other, HttpRequest}
use local_marks.Http.Header.{strtoll}
use local_marks.Response.{Response, response_error, crlf}
use local_marks.Bookmarks.{Cache, Files, Alloc, get_cached_bookmark_json_copy}
use local_marks.DbMeta.{DbMeta, build_databases_json, build_database_json}

-- `bookmark_files` is the configured list, a NULL path being none; `leftover` is what an escape buffer
-- holds by chance.
pub record Env : Type 0 where
  pub bookmark_files : List (Option Bytes)
  pub g_db_meta : List DbMeta
  pub mem : Alloc
  pub seen : Files
  pub files : Files
  pub malloc_ok : Bool
  pub leftover : Bytes

-- the response of `send_json_response`
unfoldable pub send_json_response : Bytes → Bool → Response
send_json_response json keep_alive = record {
  status = 200;
  status_text = codes "OK";
  mime = some (codes "application/json; charset=utf-8");
  extra_hdrs = some (snprintf_s 128 (codes "Cache-Control: no-cache" ++ crlf));
  body = some json;
  body_len = length json;
  keep_alive = keep_alive;
  send_body = true;
}

-- `strtol` and the test of its result: the index, if the text is a number below `count`
unfoldable pub parse_index : ℕ → Bytes → Option ℕ
parse_index count s =
    let r = strtoll s in
    elim r.end [
      | c ∷ rest ↦ none
      | [] ↦ elim r.value [ negsuc n ↦ none | pos n ↦ if ltb n count then some n else none ]
    ]

-- `strstr(rest, ".json")`, the first one being at the end and not at the start
unfoldable pub json_stem : Bytes → Option Bytes
json_stem rest = elim (strstr (codes ".json") rest) [
  | none ↦ none
  | some ([], at) ↦ none
  | some (c ∷ stem, at) ↦ if str_eq at (codes ".json") then some (c ∷ stem) else none
]

-- a copy from the cache as a response
unfoldable pub bookmark_response : Bool → Option Bytes × Cache → Response × Cache
bookmark_response keep_alive (none, cache) =
    (response_error 500 (some (codes "Cannot load bookmark database")), cache)
bookmark_response keep_alive (some json, cache) = (send_json_response json keep_alive, cache)

unfoldable pub serve_bookmark : Env → Cache → Bool → Bytes → Response × Cache
serve_bookmark env cache keep_alive idx_str =
    if leb 32 (length idx_str)
    then (response_error 404 (some (codes "Bookmark index out of range")), cache)
    else elim (parse_index (length env.g_db_meta) idx_str) [
      | none ↦ (response_error 404 (some (codes "Bookmark index out of range")), cache)
      | some index ↦
          bookmark_response keep_alive
            (get_cached_bookmark_json_copy env.mem env.seen env.files cache index)
    ]

-- a JSON text, or the 500 of its NULL
unfoldable pub json_or_error : Bool → Option Bytes → Response
json_or_error keep_alive none = response_error 500 (some (codes "Out of memory"))
json_or_error keep_alive (some json) = send_json_response json keep_alive

unfoldable pub serve_database : Env → Bool → Bytes → Response
serve_database env keep_alive [] = response_error 404 (some (codes "Database index out of range"))
serve_database env keep_alive (c ∷ rest) = elim (parse_index (length env.g_db_meta) (c ∷ rest)) [
  | none ↦ response_error 404 (some (codes "Database index out of range"))
  | some index ↦
      json_or_error keep_alive (build_database_json env.malloc_ok env.leftover env.g_db_meta index)
]

-- `cfg->bookmark_file_count > 0 ? cfg->bookmark_files[0] : NULL` is not NULL
unfoldable pub has_first_db : List (Option Bytes) → Bool
has_first_db [] = false
has_first_db (none ∷ files) = false
has_first_db (some path ∷ files) = true

-- the endpoints behind "/bookmarks/<index>.json"
unfoldable pub serve_rest : Env → Cache → Bool → Bytes → Option (Response × Cache)
serve_rest env cache keep_alive path =
    if has_first_db env.bookmark_files && str_eq path (codes "/bookmarks.json")
    then some (
        bookmark_response keep_alive
          (get_cached_bookmark_json_copy env.mem env.seen env.files cache 0))
    else if str_eq path (codes "/api/databases")
    then some (
      json_or_error keep_alive (build_databases_json env.malloc_ok env.leftover env.g_db_meta),
      cache,
    )
    else if starts_with (codes "/api/databases/") path
    then some (serve_database env keep_alive (drop 15 path), cache)
    else none

-- the stem of "/bookmarks/<stem>.json"
unfoldable pub bookmark_stem : Bytes → Option Bytes
bookmark_stem path =
    if starts_with (codes "/bookmarks/") path then json_stem (drop 11 path) else none

-- None is the 0 of a request that is not for the API.
unfoldable pub api_handle_request : Env → Cache → HttpRequest → Bool → Option (Response × Cache)
api_handle_request env cache req keep_alive = elim req.method [
  | http_get ↦ elim (bookmark_stem req.path) [
    | some idx_str ↦ some (serve_bookmark env cache keep_alive idx_str)
    | none ↦ serve_rest env cache keep_alive req.path
  ]
  | other ↦ none
]
