-- ===== src/Bookmarks/Valid.antt =====
-- The cache of src/bookmark_cache.c stays well formed.
use local_marks.Prelude.{
  ℕ, ◌+◌, ◌≤◌, ◌<◌, ◌≡◌, inl, inr, refl, sym, ◌∙◌, true, Option, none, some, List, [], ◌∷◌, map,
  ltb, length, set, arith, All, All-set, All-replicate, length-set, length-map, length-take-le,
  Bool-cases,
}
use mathlib.Core.Path.{subst}
use local_marks.Prelude.Bytes.{Bytes, snprintf_s}
use local_marks.Bookmarks.{
  max_bookmark_files, CacheEntry, empty_entry, Cache, bookmark_cache_init, bookmark_cache_cleanup,
  bookmark_cache_add_db,
}

-- the length that goes with the data
abbrev pub json_length : Option Bytes → ℕ
json_length none = 0
json_length (some json) = length json

abbrev pub IsEntry : CacheEntry → Type 0
IsEntry e = (e.json_len ≡ json_length e.json) × (length e.path < 256)

pub record IsValid (cache : Cache) : Type 0 where
  pub slots : length cache.g_db_cache ≡ max_bookmark_files
  pub count : cache.g_db_cache_count ≤ max_bookmark_files
  pub entries : All IsEntry cache.g_db_cache

empty-IsEntry : IsEntry empty_entry
empty-IsEntry = (refl, omega arith)

pub init-IsValid : IsValid bookmark_cache_init
unfolding bookmark_cache_init
init-IsValid = record {
  slots = refl;
  count = omega arith;
  entries = All-replicate IsEntry 10 empty_entry empty-IsEntry;
}

All-empty : (es : List CacheEntry) → All IsEntry (map (λ e. empty_entry) es)
All-empty [] = tt
All-empty (e ∷ es) = (empty-IsEntry, All-empty es)

pub cleanup-IsValid : (cache : Cache) → IsValid cache → IsValid (bookmark_cache_cleanup cache)
unfolding bookmark_cache_cleanup
cleanup-IsValid cache v = record {
  slots = length-map cache.g_db_cache (λ e. empty_entry) ∙ v.slots;
  count = omega arith;
  entries = All-empty cache.g_db_cache;
}

new-IsEntry :
    (path : Bytes)
    → IsEntry (record { json = none; json_len = 0; mtime = 0; path = snprintf_s 256 path })
new-IsEntry path = (refl, omega (arith, length-take-le 255 path))

-- Registering a database keeps the cache well formed: at most ten entries, each with its length and a
-- path below 256 bytes.
pub add_db-IsValid :
    (cache : Cache) (path : Option Bytes)
    → IsValid cache
    → IsValid (bookmark_cache_add_db cache path)
unfolding bookmark_cache_add_db
add_db-IsValid cache none v = v
add_db-IsValid cache (some path) v =
    elim (Bool-cases (ltb cache.g_db_cache_count max_bookmark_files)) [
      | inl room ↦ subst IsValid (sym (rw room refl)) (added room)
      | inr full ↦ rw full v
    ]
  where
    added :
        ltb cache.g_db_cache_count 10 ≡ true
        → IsValid (record {
          g_db_cache =
              set cache.g_db_cache cache.g_db_cache_count
                (record { json = none; json_len = 0; mtime = 0; path = snprintf_s 256 path });
          g_db_cache_count = cache.g_db_cache_count + 1;
        })
    added room = record {
      slots =
          length-set cache.g_db_cache cache.g_db_cache_count
            (record { json = none; json_len = 0; mtime = 0; path = snprintf_s 256 path })
          ∙ v.slots;
      count = ground arith;
      entries =
          All-set IsEntry cache.g_db_cache cache.g_db_cache_count
            (record { json = none; json_len = 0; mtime = 0; path = snprintf_s 256 path }) v.entries
            (new-IsEntry path);
    }
