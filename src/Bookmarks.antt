-- ===== src/Bookmarks.antt =====
-- src/bookmark_cache.c: the cache of the bookmark databases. The files are what `fopen` and `stat` see
-- at the moment of the call, an argument. `malloc` fails or not by a flag. The lock makes each phase
-- of `get_cached_bookmark_json_copy` one step; a negative index is none.
pub mod Valid
pub mod Load
pub mod Fresh
pub mod Current
pub mod First
pub mod Origin
pub mod Shared
pub mod Sourced
pub mod Reached
mod Tests
use local_marks.Prelude.{
  ℕ, zero, suc, ◌+◌, ◌-◌, ◌*◌, ◌/◌, ◌%◌, ◌^◌, ◌≤◌, ◌<◌, ◌≡◌, ◌≢◌, ◌↔◌, ◌⊎◌, inl, inr, refl, sym, ap,
  ◌∙◌, Bool, true, false, not, ◌&&◌, ◌||◌, Option, none, some, List, [], ◌∷◌, ◌++◌, map, append-nil,
  append_assoc, min, ltb, leb, ◌==◌, if◌then◌else◌, length, get_or, get_elem?, set, replicate, take,
  drop, arith, tests, All, All-get, All-set, All-append, All-replicate, length-set, length-map,
  length-append, length-replicate, length-take, length-take-le, length-drop, take_of_le,
  get_or-set_self, get_or-set_ne, get_or-replicate, Option-cases, Bool-cases, ==_iff, ltb→lt,
  lt→ltb, leb→le,
}
use mathlib.Core.Option
use local_marks.Prelude.Bytes.{Bytes, snprintf_s}

abbrev pub max_bookmark_files : ℕ
max_bookmark_files = 10

pub record CacheEntry : Type 0 where
  pub json : Option Bytes
  pub json_len : ℕ
  pub mtime : ℕ
  pub path : Bytes

abbrev pub empty_entry : CacheEntry
empty_entry = record { json = none; json_len = 0; mtime = 0; path = [] }

pub record Cache : Type 0 where
  pub g_db_cache : List CacheEntry
  pub g_db_cache_count : ℕ

-- A file as `fopen`, `ftell` and `fread` deliver it: the size that `ftell` gives (none if negative) and
-- the bytes that `fread` gets.
pub record File : Type 0 where
  pub size : Option ℕ
  pub bytes : Bytes

-- `stat_mtime` is asked before a load; the `stat` behind a first load may give another time.
pub record Files : Type 0 where
  pub fopen : Bytes → Option File
  pub stat_mtime : Bytes → Option ℕ
  pub stat_after_load : Bytes → Option ℕ

unfoldable pub bookmark_cache_init : Cache
bookmark_cache_init = record {
  g_db_cache = replicate max_bookmark_files empty_entry;
  g_db_cache_count = 0;
}

-- every slot is released and reset
unfoldable pub bookmark_cache_cleanup : Cache → Cache
bookmark_cache_cleanup cache = record {
  g_db_cache = map (λ e. empty_entry) cache.g_db_cache;
  g_db_cache_count = 0;
}

-- `strncpy` into a `char path[256]`
unfoldable pub bookmark_cache_add_db : Cache → Option Bytes → Cache
bookmark_cache_add_db cache none = cache
bookmark_cache_add_db cache (some path) =
    if ltb cache.g_db_cache_count max_bookmark_files
    then record {
      g_db_cache =
          set cache.g_db_cache cache.g_db_cache_count
            (record { json = none; json_len = 0; mtime = 0; path = snprintf_s 256 path });
      g_db_cache_count = cache.g_db_cache_count + 1;
    }
    else cache

-- The flag is false for a -1. Once the size is known the old data is gone.
unfoldable pub read_file : Bool → CacheEntry → File → Bool × CacheEntry
read_file malloc_ok entry file = elim file.size [
  | none ↦ (false, entry)
  | some size ↦
      if not malloc_ok || not (length file.bytes == size)
      then (false, record entry { json = none; json_len = 0 })
      else (true, record entry { json = some file.bytes; json_len = length file.bytes })
]

unfoldable pub load_bookmark_json : Bool → Files → CacheEntry → Bool × CacheEntry
load_bookmark_json malloc_ok files entry = elim (files.fopen entry.path) [
  | none ↦ (false, entry)
  | some file ↦ read_file malloc_ok entry file
]

-- `entry->mtime = st.st_mtime`, if `stat` succeeds
unfoldable pub stamp : Option ℕ → CacheEntry → CacheEntry
stamp none entry = entry
stamp (some mtime) entry = record entry { mtime = mtime }

-- the load of an entry without data, and the reload of one whose file has another time
unfoldable pub load_first : Bool → Files → CacheEntry → Bool × CacheEntry
load_first malloc_ok files entry =
    let (loaded, entry') = load_bookmark_json malloc_ok files entry in
    if loaded then (true, stamp (files.stat_after_load entry.path) entry') else (false, entry')

unfoldable pub reload : Bool → Files → CacheEntry → ℕ → Bool × CacheEntry
reload malloc_ok files entry mtime =
    let (loaded, entry') = load_bookmark_json malloc_ok files entry in
    if loaded then (true, record entry' { mtime = mtime }) else (false, entry')

-- `ensure_loaded`; the flag is false for NULL
unfoldable pub ensure_loaded : Bool → Files → CacheEntry → Bool × CacheEntry
ensure_loaded malloc_ok files entry = elim entry.json [
  | none ↦ load_first malloc_ok files entry
  | some json ↦ elim (files.stat_mtime entry.path) [
    | none ↦ (true, entry)
    | some mtime ↦
        if mtime == entry.mtime then (true, entry) else reload malloc_ok files entry mtime
  ]
]

-- the test of the first phase: cached, not empty, and of the file's time
unfoldable pub is_fresh : Files → CacheEntry → Bool
is_fresh files entry = elim entry.json [
  | none ↦ false
  | some json ↦
      ltb 0 entry.json_len
      && elim (files.stat_mtime entry.path) [ none ↦ false | some mtime ↦ mtime == entry.mtime ]
]

-- the copy of an entry's data, with its length; none if the `malloc` of the copy fails
unfoldable pub copy_json : Bool → CacheEntry → Option Bytes
copy_json copy_ok entry = if copy_ok then Option.map (take entry.json_len) entry.json else none

-- what the allocator answers in one call
pub record Alloc : Type 0 where
  pub load_ok : Bool
  pub copy_ok : Bool

-- The call with the files of the first phase (`seen`) and of the second (`files`).
unfoldable pub get_cached_bookmark_json_copy :
    Alloc → Files → Files → Cache → ℕ → Option Bytes × Cache
get_cached_bookmark_json_copy mem seen files cache index =
    if leb cache.g_db_cache_count index
    then (none, cache)
    else (let entry = get_or cache.g_db_cache index empty_entry in
        if is_fresh seen entry
        then (copy_json mem.copy_ok entry, cache)
        else (let (ok, entry') = ensure_loaded mem.load_ok files entry in
            let cache' = record cache { g_db_cache = set cache.g_db_cache index entry' } in
            ((if ok then copy_json mem.copy_ok entry' else none), cache')))
