-- ===== src/Bookmarks/Fresh.antt =====
-- What a call of src/bookmark_cache.c leaves in the cache, and where the copy comes from.
use local_marks.Prelude.{
  ℕ, ◌<◌, ◌≡◌, ◌≢◌, inl, inr, refl, sym, ap, ◌∙◌, Bool, true, false, Option, none, some, leb,
  if◌then◌else◌, get_or, set, arith, All-get, All-set, length-set, take_of_le, get_or-set_self,
  get_or-set_ne, Bool-cases,
}
use mathlib.Core.Path.{subst}
use local_marks.Prelude.Bytes.{Bytes}
use local_marks.Bookmarks.{
  CacheEntry, empty_entry, Cache, Files, ensure_loaded, is_fresh, copy_json, Alloc,
  get_cached_bookmark_json_copy,
}
use local_marks.Bookmarks.Valid.{IsEntry, IsValid}
use local_marks.Bookmarks.Load.{Source, cached, Ensured, ensure_loaded-Ensured}

-- the source of data that is in the cache and of the right time
is_fresh-Source :
    (seen files : Files) (e : CacheEntry) (bytes : Bytes)
    → is_fresh seen e ≡ true
    → e.json ≡ some bytes
    → Source seen files e bytes
unfolding is_fresh
is_fresh-Source seen files e bytes fresh h = cached h (inl (go (seen.stat_mtime e.path) refl))
  where
    go : (o : Option ℕ) → seen.stat_mtime e.path ≡ o → o ≡ some e.mtime
    go none k = ground (arith, h, k, fresh)
    go (some mtime) k = ground (arith, h, k, fresh)

pub copy_json-some :
    (copy_ok : Bool) (e : CacheEntry) (bytes : Bytes)
    → IsEntry e
    → copy_json copy_ok e ≡ some bytes
    → e.json ≡ some bytes
unfolding copy_json
copy_json-some false e bytes v h = ground arith
copy_json-some true e bytes v h = go e.json refl
  where
    go : (o : Option Bytes) → e.json ≡ o → e.json ≡ some bytes
    go none k = ground (arith, h, k)
    go (some json) k =
        ground (arith, h, k, v.0, take_of_le e.json_len json (ground (arith, v.0, k)))

abbrev pub entry_at : Cache → ℕ → CacheEntry
entry_at cache i = get_or cache.g_db_cache i empty_entry

-- The cache that a call leaves is well formed, and only the entry asked for has changed. A copy that is
-- handed out is of an index in range, is what the entry then holds, and has a source.
pub record Got (seen files : Files) (cache : Cache) (index : ℕ) (o : Option Bytes × Cache)
    : Type 0 where
  pub valid : IsValid o.1
  pub others : (j : ℕ) → index ≢ j → entry_at o.1 j ≡ entry_at cache j
  pub copy :
      (bytes : Bytes)
      → o.0 ≡ some bytes
      → (index < cache.g_db_cache_count)
        × ((entry_at o.1 index).json ≡ some bytes)
        × Source seen files (entry_at cache index) bytes

fast-Got :
    (copy_ok : Bool) (seen files : Files) (cache : Cache) (index : ℕ)
    → IsValid cache
    → index < cache.g_db_cache_count
    → is_fresh seen (entry_at cache index) ≡ true
    → Got seen files cache index (copy_json copy_ok (entry_at cache index), cache)
fast-Got copy_ok seen files cache index v range fresh = record {
  valid = v;
  others = λ j h. refl;
  copy = λ bytes h.
      let json =
        copy_json-some copy_ok (entry_at cache index) bytes
          (All-get IsEntry cache.g_db_cache index empty_entry v.entries
            (omega (arith, v.slots, v.count)))
          h in
      (range, json, is_fresh-Source seen files (entry_at cache index) bytes fresh json);
}

missed-Got :
    (seen files : Files) (cache : Cache) (index : ℕ)
    → IsValid cache
    → Got seen files cache index (none, cache)
missed-Got seen files cache index v = record {
  valid = v;
  others = λ j h. refl;
  copy = λ bytes h. ground arith;
}

-- the cache with another entry at the index
abbrev stored : Cache → ℕ → CacheEntry → Cache
stored cache index e = record cache { g_db_cache = set cache.g_db_cache index e }

stored-IsValid :
    (cache : Cache) (index : ℕ) (e : CacheEntry)
    → IsValid cache
    → IsEntry e
    → IsValid (stored cache index e)
stored-IsValid cache index e v w = record {
  slots = length-set cache.g_db_cache index e ∙ v.slots;
  count = v.count;
  entries = All-set IsEntry cache.g_db_cache index e v.entries w;
}

slow-Got :
    (copy_ok : Bool) (seen files : Files) (cache : Cache) (index : ℕ) (o : Bool × CacheEntry)
    → IsValid cache
    → index < cache.g_db_cache_count
    → Ensured seen files (entry_at cache index) o
    → Got seen files cache index
        ((if o.0 then copy_json copy_ok o.1 else none), stored cache index o.1)
slow-Got copy_ok seen files cache index (false, e) v range w = record {
  valid = stored-IsValid cache index e v w;
  others = λ j h. get_or-set_ne cache.g_db_cache e empty_entry h;
  copy = λ bytes h. ground arith;
}
slow-Got copy_ok seen files cache index (true, e) v range (w, (json, h, source)) = record {
  valid = stored-IsValid cache index e v w;
  others = λ j ne. get_or-set_ne cache.g_db_cache e empty_entry ne;
  copy = λ bytes k.
      let same = copy_json-some copy_ok e bytes w k in
      (
        range,
        ap (λ x. x.json)
              (get_or-set_self cache.g_db_cache index e empty_entry
                (omega (arith, v.slots, v.count)))
            ∙ same,
        subst (Source seen files (entry_at cache index)) (ground (arith, h, same)) source,
      );
}

-- `get_cached_bookmark_json_copy` keeps the cache well formed and touches no other entry. A copy that it
-- hands out is the data of the entry: the cached data, if the file's time is the recorded one or cannot
-- be asked, or what the file gave.
pub get_copy-Got :
    (mem : Alloc) (seen files : Files) (cache : Cache) (index : ℕ)
    → IsValid cache
    → Got seen files cache index (get_cached_bookmark_json_copy mem seen files cache index)
unfolding get_cached_bookmark_json_copy
get_copy-Got mem seen files cache index v = elim (Bool-cases (leb cache.g_db_cache_count index)) [
  | inl out ↦
      subst (Got seen files cache index) (sym (rw out refl)) (missed-Got seen files cache index v)
  | inr range ↦ elim (Bool-cases (is_fresh seen (entry_at cache index))) [
    | inl fresh ↦
        subst (Got seen files cache index) (sym (rw (range, fresh) refl))
          (fast-Got mem.copy_ok seen files cache index v (ground arith) fresh)
    | inr stale ↦ subst (Got seen files cache index) (sym (rw (range, stale) refl)) (
        slow-Got mem.copy_ok seen files cache index
          (ensure_loaded mem.load_ok files (entry_at cache index)) v (ground arith)
          (ensure_loaded-Ensured mem.load_ok seen files (entry_at cache index) (
            All-get IsEntry cache.g_db_cache index empty_entry v.entries
              (ground (arith, v.slots, v.count)))))
  ]
]
