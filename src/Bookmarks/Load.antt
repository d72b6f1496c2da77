-- ===== src/Bookmarks/Load.antt =====
-- What a load of src/bookmark_cache.c leaves in an entry, and where its data comes from.
use local_marks.Prelude.{
  ℕ, ◌≡◌, ◌⊎◌, inl, inr, refl, Bool, true, false, not, ◌||◌, Option, none, some, ◌==◌,
  if◌then◌else◌, length, arith, Bool-cases,
}
use local_marks.Prelude.Bytes.{Bytes}
use local_marks.Bookmarks.{
  CacheEntry, File, Files, read_file, load_bookmark_json, stamp, load_first, reload, ensure_loaded,
}
use local_marks.Bookmarks.Valid.{IsEntry}

-- where data comes from: the cache, its file unchanged or gone, or the file
pub data Source (seen files : Files) (e : CacheEntry) (bytes : Bytes) : Type 0 where
  cached :
      e.json ≡ some bytes
      → (seen.stat_mtime e.path ≡ some e.mtime)
        ⊎ ((files.stat_mtime e.path ≡ some e.mtime) ⊎ (files.stat_mtime e.path ≡ none))
      → Source seen files e bytes
  loaded :
      (file : File)
      → files.fopen e.path ≡ some file
      → file.bytes ≡ bytes
      → Source seen files e bytes

-- what a load leaves
abbrev Loaded : Files → CacheEntry → Bool × CacheEntry → Type 0
Loaded files e (false, e') = IsEntry e'
Loaded files e (true, e') =
    IsEntry e' × ((file : File) × (files.fopen e.path ≡ some file) × (e'.json ≡ some file.bytes))

read_file-Loaded :
    (malloc_ok : Bool) (files : Files) (e : CacheEntry) (file : File)
    → IsEntry e
    → files.fopen e.path ≡ some file
    → Loaded files e (read_file malloc_ok e file)
unfolding read_file
read_file-Loaded malloc_ok files e file v h = go file.size
  where
    go :
        (o : Option ℕ)
        → Loaded files e (elim o [
          | none ↦ (false, e)
          | some size ↦
              if not malloc_ok || not (length file.bytes == size)
              then (false, record e { json = none; json_len = 0 })
              else (true, record e { json = some file.bytes; json_len = length file.bytes })
        ])
    go none = v
    go (some size) = elim (Bool-cases (not malloc_ok || not (length file.bytes == size))) [
      | inl failed ↦ rw failed (refl, v.1)
      | inr read ↦ rw read ((refl, v.1), (file, h, refl))
    ]

load-Loaded :
    (malloc_ok : Bool) (files : Files) (e : CacheEntry)
    → IsEntry e
    → Loaded files e (load_bookmark_json malloc_ok files e)
unfolding load_bookmark_json
load-Loaded malloc_ok files e v = go (files.fopen e.path) refl
  where
    go :
        (o : Option File)
        → files.fopen e.path ≡ o
        → Loaded files e (elim o [ none ↦ (false, e) | some file ↦ read_file malloc_ok e file ])
    go none h = v
    go (some file) h = read_file-Loaded malloc_ok files e file v h

-- what `ensure_loaded` leaves: a well-formed entry, and data with its source if it succeeds
abbrev pub Ensured : Files → Files → CacheEntry → Bool × CacheEntry → Type 0
Ensured seen files e (false, e') = IsEntry e'
Ensured seen files e (true, e') =
    IsEntry e' × ((bytes : Bytes) × (e'.json ≡ some bytes) × Source seen files e bytes)

stamp-Ensured :
    (seen files : Files) (e e' : CacheEntry) (mtime : Option ℕ)
    → Loaded files e (true, e')
    → Ensured seen files e (true, stamp mtime e')
unfolding stamp
stamp-Ensured seen files e e' none (v, (file, h, k)) = (v, (file.bytes, k, loaded file h refl))
stamp-Ensured seen files e e' (some mtime) (v, (file, h, k)) =
    (v, (file.bytes, k, loaded file h refl))

load_first-Ensured :
    (malloc_ok : Bool) (seen files : Files) (e : CacheEntry)
    → IsEntry e
    → Ensured seen files e (load_first malloc_ok files e)
unfolding load_first
load_first-Ensured malloc_ok seen files e v =
    go (load_bookmark_json malloc_ok files e) (load-Loaded malloc_ok files e v)
  where
    go :
        (o : Bool × CacheEntry)
        → Loaded files e o
        → Ensured seen files e
            (if o.0 then (true, stamp (files.stat_after_load e.path) o.1) else (false, o.1))
    go (true, e') l = stamp-Ensured seen files e e' (files.stat_after_load e.path) l
    go (false, e') l = l

reload-Ensured :
    (malloc_ok : Bool) (seen files : Files) (e : CacheEntry) (mtime : ℕ)
    → IsEntry e
    → Ensured seen files e (reload malloc_ok files e mtime)
unfolding reload
reload-Ensured malloc_ok seen files e mtime v =
    go (load_bookmark_json malloc_ok files e) (load-Loaded malloc_ok files e v)
  where
    go :
        (o : Bool × CacheEntry)
        → Loaded files e o
        → Ensured seen files e (if o.0 then (true, record o.1 { mtime = mtime }) else (false, o.1))
    go (true, e') (w, (file, h, k)) = (w, (file.bytes, k, loaded file h refl))
    go (false, e') l = l

pub ensure_loaded-Ensured :
    (malloc_ok : Bool) (seen files : Files) (e : CacheEntry)
    → IsEntry e
    → Ensured seen files e (ensure_loaded malloc_ok files e)
unfolding ensure_loaded
ensure_loaded-Ensured malloc_ok seen files e v = go e.json refl
  where
    check :
        (json : Bytes)
        → e.json ≡ some json
        → (o : Option ℕ) → files.stat_mtime e.path ≡ o
        → Ensured seen files e (elim o [
          | none ↦ (true, e)
          | some mtime ↦ if mtime == e.mtime then (true, e) else reload malloc_ok files e mtime
        ])
    check json h none k = (v, (json, h, cached h (inr (inr k))))
    check json h (some mtime) k = elim (Bool-cases (mtime == e.mtime)) [
      | inl same ↦ rw same (v, (json, h, cached h (inr (inl (ground (arith, k, same))))))
      | inr changed ↦ rw changed (reload-Ensured malloc_ok seen files e mtime v)
    ]

    go :
        (o : Option Bytes)
        → e.json ≡ o
        → Ensured seen files e (elim o [
          | none ↦ load_first malloc_ok files e
          | some json ↦ elim (files.stat_mtime e.path) [
            | none ↦ (true, e)
            | some mtime ↦ if mtime == e.mtime then (true, e) else reload malloc_ok files e mtime
          ]
        ])
    go none h = load_first-Ensured malloc_ok seen files e v
    go (some json) h = check json h (files.stat_mtime e.path) refl
