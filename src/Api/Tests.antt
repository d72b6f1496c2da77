-- ===== src/Api/Tests.antt =====
-- Runs of src/api.c.
use local_marks.Prelude.{true, none, some, [], ◌∷◌}
use local_marks.Prelude.Bytes.{codes}
use local_marks.Http.{HttpRequest, blank_request}
use local_marks.Bookmarks.{Files, bookmark_cache_init}
use local_marks.Bookmarks.Valid.{init-IsValid}
use local_marks.Api.{Env, api_handle_request}
use local_marks.Api.Routes.{IsAnswerIfAny, api_handle_request-IsAnswer}

abbrev no_files : Files
no_files = record {
  fopen = λ path. none;
  stat_mtime = λ path. none;
  stat_after_load = λ path. none;
}

abbrev env : Env
env = record {
  bookmark_files = some (codes "a.json") ∷ [];
  g_db_meta = [];
  mem = record { load_ok = true; copy_ok = true };
  seen = no_files;
  files = no_files;
  malloc_ok = true;
  leftover = [];
}

abbrev list_request : HttpRequest
list_request = record blank_request { path = codes "/api/databases" }

api_handle_request-IsAnswer_example :
    IsAnswerIfAny (api_handle_request env bookmark_cache_init list_request true)
api_handle_request-IsAnswer_example =
    api_handle_request-IsAnswer env bookmark_cache_init true init-IsValid list_request
