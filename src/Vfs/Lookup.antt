-- ===== src/Vfs/Lookup.antt =====
-- The table that `vfs_hash_init` fills answers `vfs_lookup` as a search of the embedded files does.
use local_marks.Prelude.{
  ℕ, ◌+◌, ◌%◌, ◌≤◌, ◌<◌, ◌≡◌, ◌≢◌, ◌↔◌, inl, inr, refl, sym, ap, ◌∙◌, true, false, Option, none,
  some, List, [], ◌∷◌, ◌++◌, map, append-nil, append_assoc, length, get_or, set, replicate, arith,
  length-set, length-append, length-replicate, get_or-set_self, get_or-set_ne, get_or-replicate,
  Option-cases, Bool-cases,
}
use native.Mathlib.Decide.{ℕ_discrete, dec_lt}
use local_marks.Prelude.Bytes.{Bytes, str_eq, str_eq_of, str_eq_refl}
use local_marks.Hash.{fnv1a_str}
use local_marks.Vfs.{
  VfsEntry, vfs_hash_cap, Slots, with_content_hash, free_slot, insert_all, vfs_hash_init,
  lookup_from, vfs_lookup,
}
use local_marks.Vfs.Slots.{filled, filled-set, filled-replicate, free_slot-some, free_slot-found}
use local_marks.Vfs.Search.{
  find_first, lookup-Absent, lookup_kept, lookup_new, find_first-snoc, Absent,
}

-- the slots hold the files, and a search of the slots is a search of the files
record Holds (ss : Slots) (es : List VfsEntry) : Type 0 where
  size : length ss ≡ vfs_hash_cap
  count : filled ss ≡ length es
  found : (path : Bytes) → vfs_lookup ss path ≡ find_first path es
  known : (i : ℕ) (e : VfsEntry) → get_or ss i none ≡ some e → find_first e.file_path es ≢ none

module _ {ss : Slots} {es : List VfsEntry} (h : Holds ss es) where
  unfound-Absent : (path : Bytes) → find_first path es ≡ none → Absent ss path
  unfound-Absent path miss i e at = elim (Bool-cases (str_eq e.file_path path)) [
    | inr apart ↦ apart
    | inl same ↦ absurd (h.known i e at (rw (str_eq_of e.file_path path same) miss))
  ]

  module _ (e : VfsEntry) {i : ℕ}
      (put : free_slot ss (fnv1a_str e.file_path % vfs_hash_cap) vfs_hash_cap ≡ some i) where
    lt : i < length ss
    lt = omega (
      arith,
      (free_slot-some ss (fnv1a_str e.file_path % vfs_hash_cap) vfs_hash_cap (omega arith) put).0,
      h.size,
    )

    free : get_or ss i none ≡ none
    free =
        (free_slot-some ss (fnv1a_str e.file_path % vfs_hash_cap) vfs_hash_cap (omega arith) put).1

    Absent-after :
        (path : Bytes)
        → Absent ss path
        → str_eq e.file_path path ≡ false
        → Absent (set ss i (some e)) path
    Absent-after path a apart j x at = elim (ℕ_discrete i j) [
      | yes same ↦
          let is_e : x ≡ e = ground (
            arith,
            get_or-set_self ss i (some e) none lt,
            ap (λ n. get_or (set ss i (some e)) n none) same,
          ) in
          rw is_e apart
      | no other ↦ a j x (sym (get_or-set_ne ss (some e) none other) ∙ at)
    ]

    found_after :
        (path : Bytes) → vfs_lookup (set ss i (some e)) path ≡ find_first path (es ++ e ∷ [])
    unfolding vfs_lookup
    found_after path = elim (Option-cases (find_first path es)) [
      | inr (x, hit) ↦
          let was =
            lookup_kept ss path (fnv1a_str path % vfs_hash_cap) vfs_hash_cap i e {x = x} free
              (h.found path ∙ hit) in
          ground (arith, was, find_first-snoc path es e)
      | inl miss ↦
          let a = unfound-Absent path miss in
          elim (Bool-cases (str_eq e.file_path path)) [
            | inl same ↦ ground (arith, find_first-snoc path es e, found_new path same a)
            | inr apart ↦ ground (
              arith,
              find_first-snoc path es e,
              lookup-Absent (set ss i (some e)) path (fnv1a_str path % vfs_hash_cap) vfs_hash_cap
                  (Absent-after path a apart),
            )
          ]
    ]
      where
        found_new :
            (path : Bytes)
            → str_eq e.file_path path ≡ true
            → Absent ss path
            → lookup_from (set ss i (some e)) path (fnv1a_str path % vfs_hash_cap) vfs_hash_cap
              ≡ some e
        found_new path same a =
            let is_path : path ≡ e.file_path = sym (str_eq_of e.file_path path same) in
            rw is_path (
              lookup_new ss (fnv1a_str e.file_path % vfs_hash_cap) vfs_hash_cap i e lt
                (rw is_path at a) put)

    known_after :
        (j : ℕ) (x : VfsEntry)
        → get_or (set ss i (some e)) j none ≡ some x
        → find_first x.file_path (es ++ e ∷ []) ≢ none
    known_after j x at = elim (ℕ_discrete i j) [
      | yes same ↦
          let is_e : x ≡ e = ground (
            arith,
            get_or-set_self ss i (some e) none lt,
            ap (λ n. get_or (set ss i (some e)) n none) same,
          ) in
          rw is_e
            (λ miss. ground (arith, find_first-snoc e.file_path es e, str_eq_refl e.file_path))
      | no other ↦
          let known = h.known j x (sym (get_or-set_ne ss (some e) none other) ∙ at) in
          λ miss. ground (arith, find_first-snoc x.file_path es e)
    ]

    put-Holds : Holds (set ss i (some e)) (es ++ e ∷ [])
    put-Holds = record {
      size = length-set ss i (some e) ∙ h.size;
      count = omega (arith, filled-set ss i e lt free, h.count, length-append {0} es (e ∷ []));
      found = found_after;
      known = known_after;
    }

file_path-with_content_hash : (e : VfsEntry) → (with_content_hash e).file_path ≡ e.file_path
unfolding with_content_hash
file_path-with_content_hash e = ground arith

insert_all-Holds :
    (ss : Slots) (done : List VfsEntry) (inserted : ℕ) (rest : List VfsEntry)
    → Holds ss done
    → length done ≡ inserted
    → inserted + length rest ≤ vfs_hash_cap
    → (ss' : Slots) × (insert_all ss inserted rest ≡ some ss')
      × Holds ss' (done ++ map with_content_hash rest)
unfolding insert_all
insert_all-Holds ss done inserted [] h size fits = (ss, refl, rw (append-nil done) h)
insert_all-Holds ss done inserted (e ∷ rest) h size fits =
    elim (Option-cases (free_slot ss (fnv1a_str e.file_path % vfs_hash_cap) vfs_hash_cap)) [
      | inl miss ↦ absurd (
          free_slot-found ss (fnv1a_str e.file_path % vfs_hash_cap) h.size (omega (arith, h.count))
            (omega arith) miss)
      | inr (i, put) ↦
          let put' : free_slot ss (fnv1a_str (with_content_hash e).file_path % vfs_hash_cap)
                vfs_hash_cap
              ≡ some i =
            rw (file_path-with_content_hash e) put in
          let (ss', run, t) =
            insert_all-Holds (set ss i (some (with_content_hash e)))
              (done ++ with_content_hash e ∷ []) (inserted + 1) rest
              (put-Holds h (with_content_hash e) put')
              (omega (arith, length-append {0} done (with_content_hash e ∷ []))) (omega arith) in
          (
            ss',
            ground (arith, put, run),
            rw (append_assoc done (with_content_hash e ∷ []) (map with_content_hash rest)) at t,
          )
    ]

empty-Holds : Holds (replicate vfs_hash_cap none) []
unfolding vfs_lookup find_first
empty-Holds = record {
  size = length-replicate {A = Option VfsEntry} vfs_hash_cap none;
  count = filled-replicate vfs_hash_cap;
  found = λ path.
      lookup-Absent (replicate vfs_hash_cap none) path (fnv1a_str path % vfs_hash_cap) vfs_hash_cap
        (λ i e at. cc (at, get_or-replicate {A = Option VfsEntry} vfs_hash_cap i none));
  known = λ i e at miss. cc (at, get_or-replicate {A = Option VfsEntry} vfs_hash_cap i none);
}

-- With at most 64 embedded files `vfs_hash_init` does not abort, and in the table that it fills
-- `vfs_lookup` of any path is the first embedded file with that path, its content hash filled in, or
-- NULL if there is none.
pub lookup-init :
    (files : List VfsEntry)
    → length files ≤ vfs_hash_cap
    → (slots : Slots) × (vfs_hash_init files ≡ some slots)
      × ((path : Bytes) → vfs_lookup slots path ≡ find_first path (map with_content_hash files))
unfolding vfs_hash_init
lookup-init files fits =
    let (slots, run, h) =
      insert_all-Holds (replicate vfs_hash_cap none) [] 0 files empty-Holds refl (omega arith) in
    (slots, run, h.found)

insert_all_overfull :
    (ss : Slots) (inserted : ℕ) (rest : List VfsEntry)
    → inserted ≤ vfs_hash_cap
    → vfs_hash_cap < inserted + length rest
    → insert_all ss inserted rest ≡ none
unfolding insert_all
insert_all_overfull ss inserted [] low over = absurd (omega arith)
insert_all_overfull ss inserted (e ∷ rest) low over =
    elim (Option-cases (free_slot ss (fnv1a_str e.file_path % vfs_hash_cap) vfs_hash_cap)) [
      | inl miss ↦ ground arith
      | inr (i, put) ↦
          ground
            (arith, insert_all_overfull (set ss i (some (with_content_hash e))) (inserted + 1) rest)
    ]

-- `vfs_hash_init` aborts exactly when there are more embedded files than slots.
pub init-aborts :
    (files : List VfsEntry) → (vfs_hash_init files ≡ none) ↔ (vfs_hash_cap < length files)
init-aborts files = (
  λ aborted. elim (dec_lt vfs_hash_cap (length files)) [
    | yes over ↦ over
    | no fits ↦ let (slots, run, found) = lookup-init files (omega arith) in cc (aborted, run)
  ],
  λ over.
      unfold vfs_hash_init in
      insert_all_overfull (replicate vfs_hash_cap none) 0 files (omega arith) (omega arith),
)
