-- ===== src/Bookmarks/Shared.antt =====
-- The cache of src/bookmark_cache.c under any number of callers: the two phases of a call are steps of
-- their own, between which others may come and the files may change.
use local_marks.Prelude.{
  ℕ, ◌≡◌, Bool, Option, none, some, List, [], ◌∷◌, ◌++◌, leb, if◌then◌else◌, get_or, set,
}
use local_marks.Prelude.Bytes.{Bytes}
use local_marks.Bookmarks.{
  CacheEntry, empty_entry, Cache, Files, Alloc, ensure_loaded, is_fresh, copy_json,
}
use local_marks.Bookmarks.Fresh.{entry_at}

-- how the first phase ends: with the result of the call, or without the read lock
pub data First : Type 0 where
  answered : Option Bytes → First
  upgrade : First

unfoldable pub phase_one : Bool → Files → Cache → ℕ → First
phase_one copy_ok files cache index =
    if leb cache.g_db_cache_count index
    then answered none
    else if is_fresh files (get_or cache.g_db_cache index empty_entry)
    then answered (copy_json copy_ok (get_or cache.g_db_cache index empty_entry))
    else upgrade

-- what `ensure_loaded` gives is stored, and copied unless it is NULL
abbrev pub settle : Bool → Cache → ℕ → Bool × CacheEntry → Option Bytes × Cache
settle copy_ok cache index (ok, e) = (
  (if ok then copy_json copy_ok e else none),
  record cache { g_db_cache = set cache.g_db_cache index e },
)

unfoldable pub phase_two : Alloc → Files → Cache → ℕ → Option Bytes × Cache
phase_two mem files cache index =
    if leb cache.g_db_cache_count index
    then (none, cache)
    else settle mem.copy_ok cache index
        (ensure_loaded mem.load_ok files (get_or cache.g_db_cache index empty_entry))

-- The cache, the calls between their phases, the copies that were handed out with the path of their
-- entry, and what the disk was at each step.
pub record Shared : Type 0 where
  pub cache : Cache
  pub upgrading : List ℕ
  pub handed : List (Bytes × Bytes)
  pub worlds : List Files

abbrev pub hand_out : Cache → ℕ → Option Bytes → List (Bytes × Bytes) → List (Bytes × Bytes)
hand_out cache index none handed = handed
hand_out cache index (some copy) handed = ((entry_at cache index).path, copy) ∷ handed

unfoldable pub after_one : Shared → Files → ℕ → First → Shared
after_one s files index (answered o) = record s {
  handed = hand_out s.cache index o s.handed;
  worlds = files ∷ s.worlds;
}
after_one s files index upgrade = record s {
  upgrading = index ∷ s.upgrading;
  worlds = files ∷ s.worlds;
}

unfoldable pub after_two : Shared → Files → ℕ → List ℕ → Option Bytes × Cache → Shared
after_two s files index rest (o, cache) = record {
  cache = cache;
  upgrading = rest;
  handed = hand_out cache index o s.handed;
  worlds = files ∷ s.worlds;
}

pub data Step (s : Shared) : Shared → Type 0 where
  one :
      (copy_ok : Bool) (files : Files) (index : ℕ)
      → Step s (after_one s files index (phase_one copy_ok files s.cache index))
  two :
      (mem : Alloc) (files : Files) (before after : List ℕ) (index : ℕ)
      → s.upgrading ≡ before ++ index ∷ after
      → Step s (after_two s files index (before ++ after) (phase_two mem files s.cache index))

pub data Reach (s : Shared) : Shared → Type 0 where
  here : Reach s s
  next : {t u : Shared} → Reach s t → Step t u → Reach s u

abbrev pub start : Cache → Shared
start cache = record { cache = cache; upgrading = []; handed = []; worlds = [] }
