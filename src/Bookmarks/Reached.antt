-- ===== src/Bookmarks/Reached.antt =====
-- The copies that the cache hands out while calls interleave and files change.
use local_marks.Prelude.{
  ℕ, ◌≡◌, inl, inr, refl, sym, Option, none, List, [], ◌∷◌, ◌++◌, map, leb, All, Bool-cases,
}
use mathlib.Core.Path.{subst}
use local_marks.Prelude.Bytes.{Bytes}
use local_marks.Bookmarks.{
  CacheEntry, Cache, Files, Alloc, ensure_loaded, is_fresh, get_cached_bookmark_json_copy,
}
use local_marks.Bookmarks.Valid.{IsValid}
use local_marks.Bookmarks.Fresh.{entry_at}
use local_marks.Bookmarks.Origin.{JsonFrom}
use local_marks.Bookmarks.Shared.{
  answered, upgrade, phase_one, settle, phase_two, Shared, after_two, Step, one, two, Reach, here,
  next, start,
}
use local_marks.Bookmarks.Sourced.{
  IsSourced, All-weaken, hand_out-All, older, one-IsSourced, phase_one-FirstFrom, Settled,
  phase_two-Settled,
}

module _ (paths : List Bytes) where
  two-IsSourced :
      (files : Files) {s : Shared} (index : ℕ) (rest : List ℕ) (r : Option Bytes × Cache)
      → IsSourced paths s
      → Settled paths files s index r
      → IsSourced paths (after_two s files index rest r)
  unfolding after_two
  two-IsSourced files {s} index rest (o, cache) k t = record {
    valid = t.valid;
    same_paths = t.same_paths;
    stored = t.stored;
    copies =
        hand_out-All (files ∷ s.worlds) cache index o s.handed t.copied
          (older paths files k).copies;
  }

  Step-IsSourced : {s t : Shared} → Step s t → IsSourced paths s → IsSourced paths t
  Step-IsSourced {s} (one copy_ok files index) k =
      one-IsSourced paths files index (phase_one copy_ok files s.cache index) k
        (phase_one-FirstFrom paths copy_ok files index k)
  Step-IsSourced {s} (two mem files before after index at) k =
      two-IsSourced files index (before ++ after) (phase_two mem files s.cache index) k
        (phase_two-Settled paths mem files index k)

no_json-From :
    (es : List CacheEntry)
    → All (λ (e : CacheEntry). e.json ≡ none) es
    → All (λ (e : CacheEntry). JsonFrom [] e.path e.json) es
no_json-From es h = All-weaken es (λ e q. subst (JsonFrom [] e.path) (sym q) tt) h

-- From a cache in order that holds no data yet, whatever the order of the phases of any number of calls,
-- and however the files change between them: the cache stays in order, its entries keep their paths, and
-- all data that it holds or has handed out for an entry is what the file of that entry's path had at the
-- time of some phase.
pub Reach-IsSourced :
    (cache : Cache) {s : Shared}
    → IsValid cache
    → All (λ (e : CacheEntry). e.json ≡ none) cache.g_db_cache
    → Reach (start cache) s
    → IsSourced (map (λ (e : CacheEntry). e.path) cache.g_db_cache) s
Reach-IsSourced cache v empty here = record {
  valid = v;
  same_paths = refl;
  stored = no_json-From cache.g_db_cache empty;
  copies = tt;
}
Reach-IsSourced cache v empty (next r st) =
    Step-IsSourced (map (λ (e : CacheEntry). e.path) cache.g_db_cache) st
      (Reach-IsSourced cache v empty r)

-- A call whose phases nothing comes between is the first phase and then, if it upgrades, the second.
get_copy-phases :
    (mem : Alloc) (seen files : Files) (cache : Cache) (index : ℕ)
    → get_cached_bookmark_json_copy mem seen files cache index
      ≡ elim (phase_one mem.copy_ok seen cache index) [
        | answered o ↦ (o, cache)
        | upgrade ↦ phase_two mem files cache index
      ]
unfolding get_cached_bookmark_json_copy phase_one phase_two
get_copy-phases mem seen files cache index = elim (Bool-cases (leb cache.g_db_cache_count index)) [
  | inl out ↦ rw out refl
  | inr range ↦ elim (Bool-cases (is_fresh seen (entry_at cache index))) [
    | inl fresh ↦ rw (range, fresh) refl
    | inr stale ↦
        let second : phase_two mem files cache index
            ≡ settle mem.copy_ok cache index
                (ensure_loaded mem.load_ok files (entry_at cache index)) =
          rw range refl in
        rw (range, stale) (sym second)
  ]
]
