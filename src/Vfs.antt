-- ===== src/Vfs.antt =====
-- src/vfs_hash.c: the hash table over the embedded front-end files. `vfs_table` is made by the build,
-- so the entries are an argument; the table ends where its list does. `abort()` is none. The masks
-- `& (VFS_HASH_CAP - 1)` are `% vfs_hash_cap`, the capacity being a power of two.
mod Slots
pub mod Search
pub mod Lookup
mod Tests
use local_marks.Prelude.{
  ℕ, zero, suc, ◌+◌, ◌-◌, ◌*◌, ◌/◌, ◌%◌, ◌^◌, ◌≤◌, ◌<◌, ◌≡◌, ◌≢◌, ◌↔◌, ◌⊎◌, inl, inr, refl, sym, ap,
  ◌∙◌, Bool, true, false, not, ◌&&◌, ◌||◌, Option, none, some, List, [], ◌∷◌, ◌++◌, map, append-nil,
  append_assoc, min, ltb, leb, ◌==◌, if◌then◌else◌, length, get_or, get_elem?, set, replicate, take,
  drop, arith, tests, All, All-get, All-set, All-append, All-replicate, length-set, length-append,
  length-replicate, length-take, length-take-le, length-drop, take_of_le, get_or-set_self,
  get_or-set_ne, get_or-replicate, Option-cases, Bool-cases, ==_iff, ltb→lt, lt→ltb, leb→le,
}
use Prim.Native.Nat.{bit_or}
use local_marks.Prelude.Bytes.{Bytes, str_eq}
use local_marks.Hash.{fnv1a_str, fnv1a_data}

-- `vfs_entry` of src/embd_front_end.h; a NULL `file_start` is none
pub record VfsEntry : Type 0 where
  pub file_path : Bytes
  pub file_start : Option Bytes
  pub file_len : ℕ
  pub content_hash : ℕ

abbrev pub vfs_max_files : ℕ
vfs_max_files = 20

-- one round `x | (x >> k)` of the macros `VFS__PO2_1` to `VFS__PO2_16`, with 2 ^ k given
unfoldable pub smear : ℕ → ℕ → ℕ
smear x pow = bit_or x (x / pow)

unfoldable pub vfs_next_pow2 : ℕ → ℕ
unfolding smear
vfs_next_pow2 x = smear (smear (smear (smear (smear (x - 1) 2) 4) 16) 256) 65536 + 1

-- `VFS_NEXT_POW2(VFS_MAX_FILES * 2)`
abbrev pub vfs_hash_cap : ℕ
vfs_hash_cap = 64

abbrev pub Slots : Type 0
Slots = List (Option VfsEntry)

-- the content hash that `vfs_hash_init` stores in a non-empty entry
unfoldable pub with_content_hash : VfsEntry → VfsEntry
with_content_hash e =
    if ltb 0 e.file_len
    then elim e.file_start [
      | none ↦ e
      | some bytes ↦ record e { content_hash = fnv1a_data (take e.file_len bytes) }
    ]
    else e

-- the loop `while (slots[idx] != NULL)`, with the rounds that `probes >= VFS_HASH_CAP` leaves
unfoldable pub free_slot : Slots → ℕ → ℕ → Option ℕ
free_slot slots idx zero = none
free_slot slots idx (suc left) = elim (get_or slots idx none) [
  | none ↦ some idx
  | some e ↦ free_slot slots ((idx + 1) % vfs_hash_cap) left
]

-- the loop over `vfs_table`, from a table with `inserted` entries on
unfoldable pub insert_all : Slots → ℕ → List VfsEntry → Option Slots
unfolding free_slot with_content_hash
insert_all slots inserted [] = some slots
insert_all slots inserted (e ∷ es) =
    if leb vfs_hash_cap inserted
    then none
    else elim (free_slot slots (fnv1a_str e.file_path % vfs_hash_cap) vfs_hash_cap) [
      | none ↦ none
      | some idx ↦ insert_all (set slots idx (some (with_content_hash e))) (inserted + 1) es
    ]

unfoldable pub vfs_hash_init : List VfsEntry → Option Slots
unfolding insert_all
vfs_hash_init vfs_table = insert_all (replicate vfs_hash_cap none) 0 vfs_table

-- the loop of `vfs_lookup`, with the rounds left
unfoldable pub lookup_from : Slots → Bytes → ℕ → ℕ → Option VfsEntry
lookup_from slots path idx zero = none
lookup_from slots path idx (suc left) = elim (get_or slots idx none) [
  | none ↦ none
  | some e ↦
      if str_eq e.file_path path
      then some e
      else lookup_from slots path ((idx + 1) % vfs_hash_cap) left
]

unfoldable pub vfs_lookup : Slots → Bytes → Option VfsEntry
unfolding lookup_from
vfs_lookup slots path = lookup_from slots path (fnv1a_str path % vfs_hash_cap) vfs_hash_cap
