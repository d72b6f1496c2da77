-- ===== src/Vfs/Search.antt =====
-- One search of the table against one insertion.
use local_marks.Prelude.{
  ℕ, zero, suc, ◌+◌, ◌%◌, ◌<◌, ◌≡◌, ◌≢◌, inl, inr, refl, ap, false, Option, none, some, List, [],
  ◌∷◌, ◌++◌, if◌then◌else◌, length, get_or, set, arith, get_or-set_self, get_or-set_ne,
  Option-cases,
}
use native.Mathlib.Decide.{ℕ_discrete}
use local_marks.Prelude.Bytes.{Bytes, str_eq, str_eq_refl}
use local_marks.Vfs.{VfsEntry, vfs_hash_cap, Slots, free_slot, lookup_from}

-- the first of the files with the path
unfoldable pub find_first : Bytes → List VfsEntry → Option VfsEntry
find_first path [] = none
find_first path (e ∷ es) = if str_eq e.file_path path then some e else find_first path es

-- no slot holds a file of the path
abbrev pub Absent : Slots → Bytes → Type 0
Absent ss path =
    (i : ℕ) (e : VfsEntry) → get_or ss i none ≡ some e → str_eq e.file_path path ≡ false

pub lookup-Absent :
    (ss : Slots) (path : Bytes) (idx left : ℕ)
    → Absent ss path
    → lookup_from ss path idx left ≡ none
unfolding lookup_from
lookup-Absent ss path idx zero a = refl
lookup-Absent ss path idx (suc left) a = elim (Option-cases (get_or ss idx none)) [
  | inl free ↦ ground arith
  | inr (x, held) ↦
      ground (arith, a idx x held, lookup-Absent ss path ((idx + 1) % vfs_hash_cap) left a)
]

-- a search that hits is not disturbed by an insertion into a free slot
pub lookup_kept :
    (ss : Slots) (path : Bytes) (idx left i : ℕ) (e : VfsEntry) {x : VfsEntry}
    → get_or ss i none ≡ none
    → lookup_from ss path idx left ≡ some x
    → lookup_from (set ss i (some e)) path idx left ≡ some x
unfolding lookup_from
lookup_kept ss path idx zero i e free hit = cc
lookup_kept ss path idx (suc left) i e {x} free hit = elim (Option-cases (get_or ss idx none)) [
  | inl miss ↦ ground arith
  | inr (y, held) ↦
      let apart : i ≢ idx = λ same. cc (ap (λ n. get_or ss n none) same) in
      ground (
        arith,
        get_or-set_ne ss (some e) none apart,
        lookup_kept ss path ((idx + 1) % vfs_hash_cap) left i e {x = x} free,
      )
]

-- a search for a new file hits it where it was put
pub lookup_new :
    (ss : Slots) (idx left i : ℕ) (e : VfsEntry)
    → i < length ss
    → Absent ss e.file_path
    → free_slot ss idx left ≡ some i
    → lookup_from (set ss i (some e)) e.file_path idx left ≡ some e
unfolding lookup_from free_slot
lookup_new ss idx zero i e lt a at = cc
lookup_new ss idx (suc left) i e lt a at = elim (Option-cases (get_or ss idx none)) [
  | inl free ↦
      let here : idx ≡ i = ground arith in
      rw here (ground (arith, get_or-set_self ss i (some e) none lt, str_eq_refl e.file_path))
  | inr (y, held) ↦ elim (ℕ_discrete i idx) [
    | yes same ↦
        rw same (ground (arith, get_or-set_self ss i (some e) none lt, str_eq_refl e.file_path))
    | no apart ↦ ground (
      arith,
      get_or-set_ne ss (some e) none apart,
      a idx y held,
      lookup_new ss ((idx + 1) % vfs_hash_cap) left i e lt a,
    )
  ]
]

pub find_first-snoc :
    (path : Bytes) (es : List VfsEntry) (e : VfsEntry)
    → find_first path (es ++ e ∷ []) ≡ elim (find_first path es) [
      | some x ↦ some x
      | none ↦ if str_eq e.file_path path then some e else none
    ]
unfolding find_first
find_first-snoc path [] e = refl
find_first-snoc path (x ∷ es) e = ground (arith, find_first-snoc path es e)
