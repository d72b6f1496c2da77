-- ===== src/DbMeta/Tests.antt =====
-- Runs of src/databases_meta.c.
use local_marks.Prelude.{
  List, [], ◌∷◌, Option, All, ◌≤◌, ◌≡◌, none, some, ltb, if◌then◌else◌, length, arith,
}
use local_marks.Prelude.Bytes.{Bytes, codes}
use local_marks.DbMeta.{Os, json_escape_string, populate_db_meta_all}
use local_marks.DbMeta.Limits.{FitsArrays, populate_db_meta_all-FitsArrays}
use local_marks.DbMeta.Escape.{escape_all, json_escape_string-all, json_escape_string-fits}
use local_marks.DbMeta.Reader.{json_read, json_read-json_escape_string}

-- a name with a quote and one with a control character
abbrev quoted : Bytes
quoted = codes "a\"b"

json_escape_string-all_example :
    json_escape_string 4 quoted
    ≡ (if ltb (length (escape_all quoted)) 4 then some (escape_all quoted) else none)
json_escape_string-all_example = json_escape_string-all 4 quoted

quoted_fits : json_escape_string 8 quoted ≡ some (escape_all quoted)
quoted_fits = json_escape_string-fits 8 quoted (omega arith) (omega arith)

json_read-json_escape_string_example :
    json_read (length (escape_all quoted)) (escape_all quoted) ≡ some quoted
json_read-json_escape_string_example = json_read-json_escape_string 8 quoted quoted_fits

-- one file of user 7, the other missing
abbrev os : Os
os = record {
  stat = λ path.
      if ltb 6 (length path)
      then none
      else some (record {
        st_mode = 33188;
        st_size = 2;
        st_ctime = 5;
        st_birthtime = none;
        st_uid = 7;
        st_gid = 7;
        st_mtime = 5;
        st_mtime_nsec = 0;
      });
  realpath = λ path. none;
  getpwuid = λ id. none;
  getgrgid = λ id. some (codes "staff");
}

abbrev files : List (Option Bytes)
files = some (codes "a.json") ∷ none ∷ some (codes "missing.json") ∷ []

populate_db_meta_all-FitsArrays_example :
    (length (populate_db_meta_all os files) ≤ 3) × All FitsArrays (populate_db_meta_all os files)
populate_db_meta_all-FitsArrays_example = populate_db_meta_all-FitsArrays os files
