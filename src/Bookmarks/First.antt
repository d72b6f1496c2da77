-- ===== src/Bookmarks/First.antt =====
-- The first request for a database gets its file.
use local_marks.Prelude.{
  ℕ, ◌<◌, ◌≡◌, refl, ap, true, false, Option, none, some, leb, ◌==◌, length, arith, take_of_le,
}
use local_marks.Bookmarks.{
  CacheEntry, Cache, File, Files, read_file, load_bookmark_json, stamp, load_first, ensure_loaded,
  is_fresh, copy_json, get_cached_bookmark_json_copy,
}
use local_marks.Bookmarks.Fresh.{entry_at}

-- the entry after a whole read
abbrev filled : CacheEntry → File → CacheEntry
filled e file = record e { json = some file.bytes; json_len = length file.bytes }

fread-read_file :
    (e : CacheEntry) (file : File)
    → file.size ≡ some (length file.bytes)
    → read_file true e file ≡ (true, filled e file)
unfolding read_file
fread-read_file e file h =
    rw h (let same : (length file.bytes == length file.bytes) ≡ true = ground arith in rw same refl)

copy_json-stamp :
    (mtime : Option ℕ) (e : CacheEntry) (file : File)
    → copy_json true (stamp mtime (filled e file)) ≡ some file.bytes
unfolding copy_json stamp
copy_json-stamp none e file = ap some (take_of_le (length file.bytes) file.bytes (omega arith))
copy_json-stamp (some mtime) e file =
    ap some (take_of_le (length file.bytes) file.bytes (omega arith))

load-first :
    (files : Files) (e : CacheEntry) (file : File)
    → files.fopen e.path ≡ some file
    → file.size ≡ some (length file.bytes)
    → load_bookmark_json true files e ≡ (true, filled e file)
unfolding load_bookmark_json
load-first files e file opens whole = rw (load_bookmark_json, opens) (fread-read_file e file whole)

ensure_loaded-empty :
    (files : Files) (e : CacheEntry)
    → e.json ≡ none
    → ensure_loaded true files e ≡ load_first true files e
unfolding ensure_loaded
ensure_loaded-empty files e empty = ground (arith, empty)

load_first-first :
    (files : Files) (e : CacheEntry) (file : File)
    → files.fopen e.path ≡ some file
    → file.size ≡ some (length file.bytes)
    → load_first true files e ≡ (true, stamp (files.stat_after_load e.path) (filled e file))
unfolding load_first
load_first-first files e file opens whole = rw (load-first files e file opens whole) refl

ensure_loaded-first :
    (files : Files) (e : CacheEntry) (file : File)
    → e.json ≡ none
    → files.fopen e.path ≡ some file
    → file.size ≡ some (length file.bytes)
    → ensure_loaded true files e ≡ (true, stamp (files.stat_after_load e.path) (filled e file))
ensure_loaded-first files e file empty opens whole =
    rw (ensure_loaded-empty files e empty) (load_first-first files e file opens whole)

is_fresh-empty : (seen : Files) (e : CacheEntry) → e.json ≡ none → is_fresh seen e ≡ false
unfolding is_fresh
is_fresh-empty seen e h = ground (arith, h)

-- The first request for a file that can be opened and read whole gets its bytes, if memory suffices.
pub get_copy-first :
    (seen files : Files) (cache : Cache) (index : ℕ) (file : File)
    → index < cache.g_db_cache_count
    → (entry_at cache index).json ≡ none
    → files.fopen (entry_at cache index).path ≡ some file
    → file.size ≡ some (length file.bytes)
    → (get_cached_bookmark_json_copy
        (record { load_ok = true; copy_ok = true })
        seen
        files
        cache
        index).0
      ≡ some file.bytes
unfolding get_cached_bookmark_json_copy
get_copy-first seen files cache index file range empty opens whole =
    let in_range : leb cache.g_db_cache_count index ≡ false = ground arith in
    let stale : is_fresh seen (entry_at cache index) ≡ false =
      is_fresh-empty seen (entry_at cache index) empty in
    rw (in_range, stale, ensure_loaded-first files (entry_at cache index) file empty opens whole)
      (copy_json-stamp (files.stat_after_load (entry_at cache index).path) (entry_at cache index)
        file)
