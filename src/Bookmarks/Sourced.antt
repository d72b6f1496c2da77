-- ===== src/Bookmarks/Sourced.antt =====
-- The phases of a call, and where the data of the cache is from (src/bookmark_cache.c).
use local_marks.Prelude.{
  ℕ, zero, suc, ◌<◌, ◌≡◌, inl, inr, refl, sym, ap, ◌∙◌, Bool, true, false, Option, none, some, List,
  [], ◌∷◌, map, leb, get_or, set, arith, All, All-get, All-set, length-set, get_or-set_self,
  Bool-cases,
}
use mathlib.Core.Path.{subst}
use local_marks.Prelude.Bytes.{Bytes}
use local_marks.Bookmarks.{
  CacheEntry, empty_entry, Cache, Files, Alloc, ensure_loaded, is_fresh, copy_json,
}
use local_marks.Bookmarks.Valid.{IsEntry, IsValid}
use local_marks.Bookmarks.Load.{Ensured, ensure_loaded-Ensured}
use local_marks.Bookmarks.Fresh.{entry_at, copy_json-some}
use local_marks.Bookmarks.Origin.{
  FromDisk, JsonFrom, JsonFrom-later, FromDisk-later, Keeps, ensure_loaded-Keeps,
}
use local_marks.Bookmarks.Shared.{
  First, answered, upgrade, phase_one, settle, phase_two, Shared, hand_out, after_one,
}

-- The cache is in order, keeps its paths, and holds and has handed out only what the file of the path
-- had at some time.
pub record IsSourced (paths : List Bytes) (s : Shared) : Type 0 where
  pub valid : IsValid s.cache
  pub same_paths : map (λ e. e.path) s.cache.g_db_cache ≡ paths
  pub stored : All (λ e. JsonFrom s.worlds e.path e.json) s.cache.g_db_cache
  pub copies : All (λ c. FromDisk s.worlds c.0 c.1) s.handed

pub All-weaken {ℓ κ} :
    {A : Type ℓ} {P Q : A → Type κ} (xs : List A) → ((x : A) → P x → Q x) → All P xs → All Q xs
All-weaken [] f p = p
All-weaken (x ∷ xs) f p = (f x p.0, All-weaken xs f p.1)

map-set :
    (es : List CacheEntry) (i : ℕ) (e : CacheEntry)
    → e.path ≡ (get_or es i empty_entry).path
    → map (λ e. e.path) (set es i e) ≡ map (λ e. e.path) es
map-set [] i e h = refl
map-set (x ∷ es) zero e h = ap (λ p. p ∷ map (λ e. e.path) es) h
map-set (x ∷ es) (suc i) e h = ap (λ ps. x.path ∷ ps) (map-set es i e h)

-- a copy of an entry is its data
copy-FromDisk :
    (worlds : List Files) (copy_ok : Bool) (e : CacheEntry) (copy : Bytes)
    → IsEntry e
    → JsonFrom worlds e.path e.json
    → copy_json copy_ok e ≡ some copy
    → FromDisk worlds e.path copy
copy-FromDisk worlds copy_ok e copy v d is =
    subst (JsonFrom worlds e.path) (copy_json-some copy_ok e copy v is) d

-- what a phase hands out is from the disk
abbrev CopyFrom : List Files → Bytes → Option Bytes → Type 0
CopyFrom worlds path o = (copy : Bytes) → o ≡ some copy → FromDisk worlds path copy

no_copy : (worlds : List Files) (path : Bytes) → CopyFrom worlds path none
no_copy worlds path copy h = absurd (ground arith)

pub hand_out-All :
    (worlds : List Files) (cache : Cache) (index : ℕ) (o : Option Bytes)
    (handed : List (Bytes × Bytes))
    → CopyFrom worlds (entry_at cache index).path o
    → All (λ c. FromDisk worlds c.0 c.1) handed
    → All (λ c. FromDisk worlds c.0 c.1) (hand_out cache index o handed)
hand_out-All worlds cache index none handed f k = k
hand_out-All worlds cache index (some copy) handed f k = (f copy refl, k)

abbrev FirstFrom : List Files → Bytes → First → Type 0
FirstFrom worlds path (answered o) = CopyFrom worlds path o
FirstFrom worlds path upgrade = Unit {0}

module _ (paths : List Bytes) where
  -- the parts of the invariant that do not change when the disk does
  pub older :
      (files : Files) {s : Shared}
      → IsSourced paths s
      → IsSourced paths (record s { worlds = files ∷ s.worlds })
  older files {s} k = record {
    valid = k.valid;
    same_paths = k.same_paths;
    stored =
        All-weaken s.cache.g_db_cache (λ e d. JsonFrom-later files s.worlds e.path e.json d)
          k.stored;
    copies = All-weaken s.handed (λ c d. FromDisk-later files d) k.copies;
  }

  at_slot :
      {s : Shared} (index : ℕ)
      → IsSourced paths s
      → index < s.cache.g_db_cache_count
      → IsEntry (entry_at s.cache index)
        × JsonFrom s.worlds (entry_at s.cache index).path (entry_at s.cache index).json
  at_slot {s} index k range = (
    All-get IsEntry s.cache.g_db_cache index empty_entry k.valid.entries
        (omega (arith, k.valid.slots, k.valid.count)),
    All-get (λ e. JsonFrom s.worlds e.path e.json) s.cache.g_db_cache index empty_entry k.stored
        (omega (arith, k.valid.slots, k.valid.count)),
  )

  pub phase_one-FirstFrom :
      (copy_ok : Bool) (files : Files) {s : Shared} (index : ℕ)
      → IsSourced paths s
      → FirstFrom s.worlds (entry_at s.cache index).path (phase_one copy_ok files s.cache index)
  unfolding phase_one
  phase_one-FirstFrom copy_ok files {s} index k =
      elim (Bool-cases (leb s.cache.g_db_cache_count index)) [
        | inl out ↦ rw out (λ copy h. absurd (ground arith))
        | inr range ↦ elim (Bool-cases (is_fresh files (entry_at s.cache index))) [
          | inl fresh ↦
              let e = at_slot index k (ground arith) in
              rw (range, fresh)
                (λ copy h. copy-FromDisk s.worlds copy_ok (entry_at s.cache index) copy e.0 e.1 h)
          | inr stale ↦ rw (range, stale) tt
        ]
      ]

  pub one-IsSourced :
      (files : Files) {s : Shared} (index : ℕ) (r : First)
      → IsSourced paths s
      → FirstFrom s.worlds (entry_at s.cache index).path r
      → IsSourced paths (after_one s files index r)
  unfolding after_one
  one-IsSourced files {s} index (answered o) k f =
      let k' = older files k in
      record {
        valid = k'.valid;
        same_paths = k'.same_paths;
        stored = k'.stored;
        copies =
            hand_out-All (files ∷ s.worlds) s.cache index o s.handed
              (λ copy h. FromDisk-later files (f copy h)) k'.copies;
      }
  one-IsSourced files {s} index upgrade k f =
      let k' = older files k in
      record {
        valid = k'.valid;
        same_paths = k'.same_paths;
        stored = k'.stored;
        copies = k'.copies;
      }

  -- what the second phase leaves
  pub record Settled (files : Files) (s : Shared) (index : ℕ) (r : Option Bytes × Cache)
      : Type 0 where
    pub valid : IsValid r.1
    pub same_paths : map (λ e. e.path) r.1.g_db_cache ≡ paths
    pub stored : All (λ e. JsonFrom (files ∷ s.worlds) e.path e.json) r.1.g_db_cache
    pub copied : CopyFrom (files ∷ s.worlds) (entry_at r.1 index).path r.0

  put_back :
      (files : Files) {s : Shared} (index : ℕ) (o : Option Bytes) (e : CacheEntry)
      → IsSourced paths s
      → index < s.cache.g_db_cache_count
      → IsEntry e
      → e.path ≡ (entry_at s.cache index).path
      → JsonFrom (files ∷ s.worlds) e.path e.json
      → CopyFrom (files ∷ s.worlds) e.path o
      → Settled files s index (o, record s.cache { g_db_cache = set s.cache.g_db_cache index e })
  put_back files {s} index o e k range v path d copied = record {
    valid = record {
      slots = length-set s.cache.g_db_cache index e ∙ k.valid.slots;
      count = k.valid.count;
      entries = All-set IsEntry s.cache.g_db_cache index e k.valid.entries v;
    };
    same_paths = map-set s.cache.g_db_cache index e path ∙ k.same_paths;
    stored =
        All-set (λ e. JsonFrom (files ∷ s.worlds) e.path e.json) s.cache.g_db_cache index e
          (older files k).stored d;
    copied =
        subst (λ (x : CacheEntry). CopyFrom (files ∷ s.worlds) x.path o)
          (sym (
            get_or-set_self s.cache.g_db_cache index e empty_entry
              (omega (arith, k.valid.slots, k.valid.count))))
          copied;
  }

  settle-Settled :
      (copy_ok : Bool) (files : Files) {s : Shared} (index : ℕ) (r : Bool × CacheEntry)
      → IsSourced paths s
      → index < s.cache.g_db_cache_count
      → Ensured files files (entry_at s.cache index) r
      → Keeps files s.worlds (entry_at s.cache index) r
      → Settled files s index (settle copy_ok s.cache index r)
  settle-Settled copy_ok files {s} index (false, e) k range v (path, d) =
      put_back files {s = s} index none e k range v path d (no_copy (files ∷ s.worlds) e.path)
  settle-Settled copy_ok files {s} index (true, e) k range (v, w) (path, d) =
      put_back files index (copy_json copy_ok e) e k range v path d
        (λ copy h. copy-FromDisk (files ∷ s.worlds) copy_ok e copy v d h)

  pub phase_two-Settled :
      (mem : Alloc) (files : Files) {s : Shared} (index : ℕ)
      → IsSourced paths s
      → Settled files s index (phase_two mem files s.cache index)
  unfolding phase_two
  phase_two-Settled mem files {s} index k = elim (Bool-cases (leb s.cache.g_db_cache_count index)) [
    | inl out ↦
        let k' = older files k in
        subst (Settled files s index) (sym (rw out refl)) (record {
          valid = k'.valid;
          same_paths = k'.same_paths;
          stored = k'.stored;
          copied = no_copy (files ∷ s.worlds) (entry_at s.cache index).path;
        })
    | inr range ↦
        let e = at_slot index k (ground arith) in
        subst (Settled files s index) (sym (rw range refl)) (
          settle-Settled mem.copy_ok files index
            (ensure_loaded mem.load_ok files (entry_at s.cache index)) k (ground arith)
            (ensure_loaded-Ensured mem.load_ok files files (entry_at s.cache index) e.0)
            (ensure_loaded-Keeps mem.load_ok files s.worlds (entry_at s.cache index) e.1))
  ]
