-- ===== src/Vfs/Tests.antt =====
-- Runs of the embedded-file table, and its theorem at a concrete input.
use local_marks.Prelude.{◌*◌, ◌≡◌, refl, some, [], ◌∷◌, map, arith}
use local_marks.Prelude.Bytes.{Bytes, codes}
use local_marks.Vfs.{
  VfsEntry, vfs_hash_cap, vfs_max_files, vfs_next_pow2, Slots, with_content_hash, vfs_hash_init,
  vfs_lookup,
}
use local_marks.Vfs.Search.{find_first}
use local_marks.Vfs.Lookup.{lookup-init}

abbrev index : VfsEntry
index = record {
  file_path = codes "index.html";
  file_start = some (0x1f ∷ 0x8b ∷ []);
  file_len = 2;
  content_hash = 0;
}

abbrev style : VfsEntry
style = record {
  file_path = codes "style.css";
  file_start = some (1 ∷ 2 ∷ 3 ∷ []);
  file_len = 3;
  content_hash = 0;
}

cap_is_next_pow2 : vfs_hash_cap ≡ vfs_next_pow2 (vfs_max_files * 2)
unfolding vfs_next_pow2
cap_is_next_pow2 = refl

lookup-init_example :
    (slots : Slots) × (vfs_hash_init (index ∷ style ∷ []) ≡ some slots)
    × ((path : Bytes)
        → vfs_lookup slots path ≡ find_first path (map with_content_hash (index ∷ style ∷ [])))
lookup-init_example = lookup-init (index ∷ style ∷ []) (omega arith)
