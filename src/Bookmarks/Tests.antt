-- ===== src/Bookmarks/Tests.antt =====
-- Runs of src/bookmark_cache.c.
use local_marks.Prelude.{◌≡◌, refl, true, none, some, if◌then◌else◌, arith}
use local_marks.Prelude.Bytes.{codes, str_eq}
use local_marks.Bookmarks.{
  Cache, File, Files, bookmark_cache_init, bookmark_cache_add_db, get_cached_bookmark_json_copy,
}
use local_marks.Bookmarks.Valid.{IsValid, init-IsValid, add_db-IsValid}
use local_marks.Bookmarks.First.{get_copy-first}
use local_marks.Prelude.{[], map}
use local_marks.Bookmarks.{is_fresh, Alloc}
use local_marks.Bookmarks.Shared.{Shared, Reach, here, next, one, two, start, phase_one, after_one}
use local_marks.Bookmarks.Sourced.{IsSourced}
use local_marks.Bookmarks.Reached.{Reach-IsSourced}

abbrev db : File
db = record { size = some 2; bytes = codes "{}" }

-- one file, of the time 5
abbrev disk : Files
disk = record {
  fopen = λ path. if str_eq path (codes "a.json") then some db else none;
  stat_mtime = λ path. if str_eq path (codes "a.json") then some 5 else none;
  stat_after_load = λ path. if str_eq path (codes "a.json") then some 5 else none;
}

abbrev loaded_cache : Cache
loaded_cache = bookmark_cache_add_db bookmark_cache_init (some (codes "a.json"))

registered-IsValid : IsValid loaded_cache
registered-IsValid = add_db-IsValid bookmark_cache_init (some (codes "a.json")) init-IsValid

get_copy-first_example :
    (get_cached_bookmark_json_copy
      (record { load_ok = true; copy_ok = true })
      disk
      disk
      loaded_cache
      0).0
    ≡ some (codes "{}")
unfolding bookmark_cache_add_db bookmark_cache_init
get_copy-first_example =
    get_copy-first disk disk loaded_cache 0 db (omega arith) refl (unfold str_eq in refl) refl

abbrev mem : Alloc
mem = record { load_ok = true; copy_ok = true }

-- a call upgrades its lock, loads the file and hands out a copy
twice : (s : Shared) × Reach (start loaded_cache) s
unfolding after_one phase_one is_fresh bookmark_cache_add_db bookmark_cache_init
twice = (_, next (next here (one true disk 0)) (two mem disk [] [] 0 refl))

Reach-IsSourced_example : IsSourced (map (λ e. e.path) loaded_cache.g_db_cache) twice.0
unfolding bookmark_cache_add_db bookmark_cache_init
Reach-IsSourced_example =
    Reach-IsSourced loaded_cache registered-IsValid
      (refl, (refl, (refl, (refl, (refl, (refl, (refl, (refl, (refl, (refl, tt)))))))))) twice.1
