-- ===== src/Bookmarks/Origin.antt =====
-- Where the data of a cache entry comes from: `worlds` are what `fopen` and `stat` saw, the last first.
use local_marks.Prelude.{
  ℕ, ◌≡◌, inl, inr, refl, sym, ap, Bool, true, false, not, ◌||◌, Option, none, some, List, [], ◌∷◌,
  ◌++◌, ◌==◌, if◌then◌else◌, length, Option-cases, Bool-cases,
}
use mathlib.Core.Path.{subst}
use local_marks.Prelude.Bytes.{Bytes}
use local_marks.Bookmarks.{
  CacheEntry, File, Files, read_file, load_bookmark_json, stamp, load_first, reload, ensure_loaded,
}

-- at some time the file of this path had these bytes
pub record FromDisk (worlds : List Files) (path bytes : Bytes) : Type 0 where
  pub before : List Files
  pub files : Files
  pub after : List Files
  pub among : worlds ≡ before ++ files ∷ after
  pub file : File
  pub opened : files.fopen path ≡ some file
  pub content : file.bytes ≡ bytes

abbrev pub JsonFrom : List Files → Bytes → Option Bytes → Type 0
JsonFrom worlds path none = Unit {0}
JsonFrom worlds path (some json) = FromDisk worlds path json

pub FromDisk-later :
    (files : Files) {worlds : List Files} {path bytes : Bytes}
    → FromDisk worlds path bytes
    → FromDisk (files ∷ worlds) path bytes
FromDisk-later files d = record {
  before = files ∷ d.before;
  files = d.files;
  after = d.after;
  among = ap (λ l. files ∷ l) d.among;
  file = d.file;
  opened = d.opened;
  content = d.content;
}

pub JsonFrom-later :
    (files : Files) (worlds : List Files) (path : Bytes) (json : Option Bytes)
    → JsonFrom worlds path json
    → JsonFrom (files ∷ worlds) path json
JsonFrom-later files worlds path none d = tt
JsonFrom-later files worlds path (some json) d = FromDisk-later files d

-- an entry that a call leaves: of the same path, with data from the disk
abbrev pub Keeps : Files → List Files → CacheEntry → Bool × CacheEntry → Type 0
Keeps files worlds e (ok, e') = (e'.path ≡ e.path) × JsonFrom (files ∷ worlds) e'.path e'.json

same-Keeps :
    (files : Files) (worlds : List Files) (e : CacheEntry) (ok : Bool)
    → JsonFrom worlds e.path e.json
    → Keeps files worlds e (ok, e)
same-Keeps files worlds e ok d = (refl, JsonFrom-later files worlds e.path e.json d)

read_file-Keeps :
    (malloc_ok : Bool) (files : Files) (worlds : List Files) (e : CacheEntry) (file : File)
    → JsonFrom worlds e.path e.json
    → files.fopen e.path ≡ some file
    → Keeps files worlds e (read_file malloc_ok e file)
unfolding read_file
read_file-Keeps malloc_ok files worlds e file d opened = elim (Option-cases file.size) [
  | inl negative ↦ simp (read_file, negative) (same-Keeps files worlds e false d)
  | inr (size, known) ↦ elim (Bool-cases (not malloc_ok || not (length file.bytes == size))) [
    | inl bad ↦ simp (read_file, known, bad) (refl, tt)
    | inr good ↦
        simp (read_file, known, good)
          (
            refl,
            record {
              before = [];
              files = files;
              after = worlds;
              among = refl;
              file = file;
              opened = opened;
              content = refl;
            },
          )
  ]
]

load-Keeps :
    (malloc_ok : Bool) (files : Files) (worlds : List Files) (e : CacheEntry)
    → JsonFrom worlds e.path e.json
    → Keeps files worlds e (load_bookmark_json malloc_ok files e)
unfolding load_bookmark_json
load-Keeps malloc_ok files worlds e d = elim (Option-cases (files.fopen e.path)) [
  | inl missing ↦ simp (load_bookmark_json, missing) (same-Keeps files worlds e false d)
  | inr (file, opened) ↦
      simp (load_bookmark_json, opened) (read_file-Keeps malloc_ok files worlds e file d opened)
]

stamp-Keeps :
    (files : Files) (worlds : List Files) (e e' : CacheEntry) (mtime : Option ℕ)
    → Keeps files worlds e (true, e')
    → Keeps files worlds e (true, stamp mtime e')
unfolding stamp
stamp-Keeps files worlds e e' none k = k
stamp-Keeps files worlds e e' (some mtime) k = k

first-Keeps :
    (files : Files) (worlds : List Files) (e : CacheEntry) (mtime : Option ℕ)
    (o : Bool × CacheEntry)
    → Keeps files worlds e o
    → Keeps files worlds e (if o.0 then (true, stamp mtime o.1) else (false, o.1))
first-Keeps files worlds e mtime (true, e') k = stamp-Keeps files worlds e e' mtime k
first-Keeps files worlds e mtime (false, e') k = k

again-Keeps :
    (files : Files) (worlds : List Files) (e : CacheEntry) (mtime : ℕ) (o : Bool × CacheEntry)
    → Keeps files worlds e o
    → Keeps files worlds e (if o.0 then (true, record o.1 { mtime = mtime }) else (false, o.1))
again-Keeps files worlds e mtime (true, e') k = k
again-Keeps files worlds e mtime (false, e') k = k

pub ensure_loaded-Keeps :
    (malloc_ok : Bool) (files : Files) (worlds : List Files) (e : CacheEntry)
    → JsonFrom worlds e.path e.json
    → Keeps files worlds e (ensure_loaded malloc_ok files e)
unfolding ensure_loaded load_first reload
ensure_loaded-Keeps malloc_ok files worlds e d = elim (Option-cases e.json) [
  | inl absent ↦
      let is : ensure_loaded malloc_ok files e ≡ load_first malloc_ok files e =
        simp (ensure_loaded, absent) refl in
      subst (Keeps files worlds e) (sym is) (
        first-Keeps files worlds e (files.stat_after_load e.path)
          (load_bookmark_json malloc_ok files e) (load-Keeps malloc_ok files worlds e d))
  | inr (json, present) ↦ elim (Option-cases (files.stat_mtime e.path)) [
    | inl unknown ↦
        let is : ensure_loaded malloc_ok files e ≡ (true, e) =
          simp (ensure_loaded, present, unknown) refl in
        subst (Keeps files worlds e) (sym is) (same-Keeps files worlds e true d)
    | inr (mtime, known) ↦ elim (Bool-cases (mtime == e.mtime)) [
      | inl same ↦
          let is : ensure_loaded malloc_ok files e ≡ (true, e) =
            simp (ensure_loaded, present, known, same) refl in
          subst (Keeps files worlds e) (sym is) (same-Keeps files worlds e true d)
      | inr newer ↦
          let is : ensure_loaded malloc_ok files e ≡ reload malloc_ok files e mtime =
            simp (ensure_loaded, present, known, newer) refl in
          subst (Keeps files worlds e) (sym is) (
            again-Keeps files worlds e mtime (load_bookmark_json malloc_ok files e)
              (load-Keeps malloc_ok files worlds e d))
    ]
  ]
]
