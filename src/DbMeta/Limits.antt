-- ===== src/DbMeta/Limits.antt =====
-- The table of src/databases_meta.c holds no more entries than files were configured, and its strings
-- fit their arrays.
use local_marks.Prelude.{
  ℕ, suc, ◌≤◌, ◌<◌, Option, none, some, List, [], ◌∷◌, length, take, drop, arith, All,
  length-take-le,
}
use local_marks.Prelude.Bytes.{Bytes, strrchr, dec}
use local_marks.DbMeta.{DbMeta, Stat, Os, name_or_id, meta_of, populate_db_meta_all}

-- the strings of an entry, with their NULs, fit
pub record FitsArrays (meta : DbMeta) : Type 0 where
  pub absolute_path : length meta.absolute_path < 4096
  pub file_name : length meta.file_name < 256
  pub user : length meta.user < 256
  pub group : length meta.group < 256

length-name_or_id : (look_up : ℕ → Option Bytes) (id : ℕ) → length (name_or_id look_up id 256) < 256
unfolding name_or_id
length-name_or_id look_up id = go (look_up id)
  where
    go :
        (o : Option Bytes)
        → length {A = ℕ} (elim o [ some name ↦ take 255 name | none ↦ take 255 (dec id) ]) < 256
    go none = omega (arith, length-take-le 255 (dec id))
    go (some name) = omega (arith, length-take-le 255 name)

length-path :
    (path : Bytes) (o : Option Bytes)
    → length {A = ℕ} (elim o [ some abs_path ↦ take 4095 abs_path | none ↦ take 4095 path ]) < 4096
length-path path none = omega (arith, length-take-le 4095 path)
length-path path (some abs_path) = omega (arith, length-take-le 4095 abs_path)

meta_of-FitsArrays : (os : Os) (path : Bytes) (st : Stat) → FitsArrays (meta_of os path st)
unfolding meta_of
meta_of-FitsArrays os path st = record {
  absolute_path = length-path path (os.realpath path);
  file_name = omega (
    arith,
    length-take-le {A = ℕ} 255 (elim (strrchr b'/' path) [ none ↦ path | some base ↦ drop 1 base ]),
  );
  user = length-name_or_id os.getpwuid st.st_uid;
  group = length-name_or_id os.getgrgid st.st_gid;
}

-- `populate_db_meta_all` fills at most one entry for each configured file, so with at most ten files it
-- stays inside its table; and every string that it copies fits its array with the NUL, however long the
-- paths and names are.
pub populate_db_meta_all-FitsArrays :
    (os : Os) (files : List (Option Bytes))
    → (length (populate_db_meta_all os files) ≤ length files)
      × All FitsArrays (populate_db_meta_all os files)
unfolding populate_db_meta_all
populate_db_meta_all-FitsArrays os [] = (omega arith, tt)
populate_db_meta_all-FitsArrays os (none ∷ files) =
    let (le, fits) = populate_db_meta_all-FitsArrays os files in (omega arith, fits)
populate_db_meta_all-FitsArrays os (some path ∷ files) =
    go (os.stat path) (populate_db_meta_all-FitsArrays os files)
  where
    go :
        (o : Option Stat)
        → (length (populate_db_meta_all os files) ≤ length files)
          × All FitsArrays (populate_db_meta_all os files)
        → (length (elim o as (λ x. List DbMeta) [
          | none ↦ populate_db_meta_all os files
          | some st ↦ meta_of os path st ∷ populate_db_meta_all os files
        ])
            ≤ suc (length files))
          × All FitsArrays (elim o as (λ x. List DbMeta) [
            | none ↦ populate_db_meta_all os files
            | some st ↦ meta_of os path st ∷ populate_db_meta_all os files
          ])
    go none (le, fits) = (omega arith, fits)
    go (some st) (le, fits) = (omega arith, (meta_of-FitsArrays os path st, fits))
