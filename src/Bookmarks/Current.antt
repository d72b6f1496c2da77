-- ===== src/Bookmarks/Current.antt =====
-- What the cache of src/bookmark_cache.c holds against the history of the files: `content path m` is
-- the file at this path when its time was m.
use local_marks.Prelude.{ℕ, ◌≡◌, ◌⊎◌, Bool, true, false, Option, none, some, All}
use local_marks.Prelude.Bytes.{Bytes}
use local_marks.Bookmarks.{CacheEntry, Cache, File, Files}
use local_marks.Bookmarks.Fresh.{entry_at, Got}

-- No file changes while a call holds the lock: what is opened is the file of the time that `stat` gives,
-- before and behind the load, and a file that `stat` does not find cannot be opened.
pub record IsSteady (content : Bytes → ℕ → File) (files : Files) : Type 0 where
  pub opens :
      (path : Bytes) (m : ℕ)
      → files.stat_mtime path ≡ some m
      → files.fopen path ≡ some (content path m)
  pub gone : (path : Bytes) → files.stat_mtime path ≡ none → files.fopen path ≡ none
  pub same : (path : Bytes) → files.stat_after_load path ≡ files.stat_mtime path

-- the data of an entry is what its file held at the recorded time
abbrev pub IsCurrent : (Bytes → ℕ → File) → CacheEntry → Type 0
IsCurrent content e = (json : Bytes) → e.json ≡ some json → (content e.path e.mtime).bytes ≡ json

-- data of a time that `stat` gave in this call, or of the recorded time if the file is gone
pub data NotStale (content : Bytes → ℕ → File) (seen files : Files) (e : CacheEntry) (bytes : Bytes)
    : Type 0 where
  at_time :
      (m : ℕ)
      → (seen.stat_mtime e.path ≡ some m) ⊎ (files.stat_mtime e.path ≡ some m)
      → (content e.path m).bytes ≡ bytes
      → NotStale content seen files e bytes
  at_last :
      files.stat_mtime e.path ≡ none
      → (content e.path e.mtime).bytes ≡ bytes
      → NotStale content seen files e bytes

pub record Served (content : Bytes → ℕ → File) (seen files : Files) (cache : Cache) (index : ℕ)
    (o : Option Bytes × Cache) : Type 0 where
  pub got : Got seen files cache index o
  pub current : All (IsCurrent content) o.1.g_db_cache
  pub copy :
      (bytes : Bytes) → o.0 ≡ some bytes → NotStale content seen files (entry_at cache index) bytes

module _ (content : Bytes → ℕ → File) (files : Files) (steady : IsSteady content files) where
  abbrev Leaves : Bool × CacheEntry → Type 0
  Leaves o = IsCurrent content o.1

  -- what a load leaves: data of the recorded time if it fails, and the file if it succeeds
  abbrev Loads : CacheEntry → Bool × CacheEntry → Type 0
  Loads e (false, e') = IsCurrent content e'
  Loads e (true, e') =
      (e'.path ≡ e.path)
      × ((file : File) × (files.fopen e.path ≡ some file) × (e'.json ≡ some file.bytes))
