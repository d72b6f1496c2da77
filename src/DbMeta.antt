-- ===== src/DbMeta.antt =====
-- src/databases_meta.c: the metadata of the bookmark databases and its JSON. What `stat`, `realpath` and
-- the user database answer is an argument; a `char` array is what it reads as.
pub mod Escape
pub mod Reader
pub mod Limits
mod Tests
use local_marks.Prelude.{
  ℕ, zero, suc, ◌+◌, ◌-◌, ◌*◌, ◌/◌, ◌%◌, ◌^◌, ◌≤◌, ◌<◌, ◌≡◌, ◌≢◌, ◌↔◌, ◌⊎◌, inl, inr, refl, sym, ap,
  ◌∙◌, Bool, true, false, not, ◌&&◌, ◌||◌, Option, none, some, List, [], ◌∷◌, ◌++◌, map, append-nil,
  append_assoc, min, ltb, leb, ◌==◌, if◌then◌else◌, length, get_or, get_elem?, set, replicate, take,
  drop, arith, tests, All, All-get, All-set, All-append, All-replicate, length-set, length-map,
  length-append, length-replicate, length-take, length-take-le, length-drop, take_of_le,
  get_or-set_self, get_or-set_ne, get_or-replicate, Option-cases, Bool-cases, ==_iff, ltb→lt,
  lt→ltb, leb→le,
}
use local_marks.Prelude.Bytes.{Bytes, codes, dec, padded, snprintf_s, strrchr}

-- the letter of a short escape
unfoldable pub short_escape : ℕ → Option ℕ
short_escape c =
    if c == b'"'
    then some b'"'
    else if c == 92
    then some 92
    else if c == 8
    then some b'b'
    else if c == 12
    then some b'f'
    else if c == 10
    then some b'n'
    else if c == 13
    then some b'r'
    else if c == 9
    then some b't'
    else none

-- what one byte of the source becomes
unfoldable pub escape_byte : ℕ → Bytes
unfolding short_escape
escape_byte c = elim (short_escape c) [
  | some e ↦ 92 ∷ e ∷ []
  | none ↦ if ltb c 32 then 92 ∷ b'u' ∷ padded 16 4 c else c ∷ []
]

-- The loop, with what `dst` holds; none is the -1 of a buffer that is too small, on which no NUL is
-- written.
unfoldable pub escape_from : ℕ → Bytes → Bytes → Option Bytes
escape_from dst_size dst [] = if leb dst_size (length dst) then none else some dst
escape_from dst_size dst (c ∷ src) =
    if leb dst_size (length dst + length (escape_byte c))
    then none
    else escape_from dst_size (dst ++ escape_byte c) src

unfoldable pub json_escape_string : ℕ → Bytes → Option Bytes
json_escape_string dst_size src = escape_from dst_size [] src

-- `JSON_DB_meta_data`
pub record DbMeta : Type 0 where
  pub mode : ℕ
  pub absolute_path : Bytes
  pub file_name : Bytes
  pub file_size : ℕ
  pub c_time : ℕ
  pub b_time : ℕ
  pub user : Bytes
  pub group : Bytes
  pub m_time_sec : ℕ
  pub m_time_nsec : ℕ

-- what `stat` fills in; the birth time is none where the platform has none
pub record Stat : Type 0 where
  pub st_mode : ℕ
  pub st_size : ℕ
  pub st_ctime : ℕ
  pub st_birthtime : Option ℕ
  pub st_uid : ℕ
  pub st_gid : ℕ
  pub st_mtime : ℕ
  pub st_mtime_nsec : ℕ

pub record Os : Type 0 where
  pub stat : Bytes → Option Stat
  pub realpath : Bytes → Option Bytes
  pub getpwuid : ℕ → Option Bytes
  pub getgrgid : ℕ → Option Bytes

abbrev pub path_max : ℕ
path_max = 4096

-- `get_user_name` and `get_group_name`: the name, or the number
unfoldable pub name_or_id : (ℕ → Option Bytes) → ℕ → ℕ → Bytes
name_or_id look_up id buf_size = elim (look_up id) [
  | some name ↦ snprintf_s buf_size name
  | none ↦ snprintf_s buf_size (dec id)
]

unfoldable pub meta_of : Os → Bytes → Stat → DbMeta
meta_of os path st = record {
  mode = st.st_mode % 512;
  absolute_path = elim (os.realpath path) [
    | some abs_path ↦ snprintf_s path_max abs_path
    | none ↦ snprintf_s path_max path
  ];
  file_name = snprintf_s 256 (elim (strrchr b'/' path) [ none ↦ path | some base ↦ drop 1 base ]);
  file_size = st.st_size;
  c_time = st.st_ctime;
  b_time = elim st.st_birthtime [ none ↦ 0 | some time ↦ time ];
  user = name_or_id os.getpwuid st.st_uid 256;
  group = name_or_id os.getgrgid st.st_gid 256;
  m_time_sec = st.st_mtime;
  m_time_nsec = st.st_mtime_nsec;
}

-- The loop over the configured files: a NULL path or a file that `stat` does not find is skipped.
unfoldable pub populate_db_meta_all : Os → List (Option Bytes) → List DbMeta
unfolding meta_of
populate_db_meta_all os [] = []
populate_db_meta_all os (none ∷ files) = populate_db_meta_all os files
populate_db_meta_all os (some path ∷ files) = elim (os.stat path) [
  | none ↦ populate_db_meta_all os files
  | some st ↦ meta_of os path st ∷ populate_db_meta_all os files
]

-- An `esc_` buffer after `json_escape_string`: on a -1 the code prints what the buffer happens to hold,
-- which is the argument.
unfoldable pub escaped : Bytes → ℕ → Bytes → Bytes
escaped leftover dst_size src = elim (json_escape_string dst_size src) [
  | none ↦ leftover
  | some dst ↦ dst
]

unfoldable pub meta_json : Bytes → DbMeta → Bytes
meta_json leftover meta =
    codes "{\"mode\":\""
    ++ padded 8 4 meta.mode
    ++ codes "\",\"absolute_path\":\""
    ++ escaped leftover (path_max * 2) meta.absolute_path
    ++ codes "\",\"file_name\":\""
    ++ escaped leftover 512 meta.file_name
    ++ codes "\",\"file_size\":"
    ++ dec meta.file_size
    ++ codes ",\"cTime\":"
    ++ dec meta.c_time
    ++ codes ",\"bTime\":"
    ++ dec meta.b_time
    ++ codes ",\"user\":\""
    ++ escaped leftover 512 meta.user
    ++ codes "\",\"group\":\""
    ++ escaped leftover 512 meta.group
    ++ codes "\",\"mTime_sec\":"
    ++ dec meta.m_time_sec
    ++ codes ",\"mTime_nsec\":"
    ++ dec meta.m_time_nsec
    ++ codes "}"

-- the loop of `build_databases_json`: none once a piece does not fit the buffer
unfoldable pub append_metas : Bytes → ℕ → Bool → List DbMeta → Bytes → Option Bytes
append_metas leftover buf_size first [] buf = some buf
append_metas leftover buf_size first (meta ∷ metas) buf =
    let buf' = buf ++ (if first then [] else codes ",") ++ meta_json leftover meta in
    if leb buf_size (length buf') then none else append_metas leftover buf_size false metas buf'

unfoldable pub build_databases_json : Bool → Bytes → List DbMeta → Option Bytes
build_databases_json malloc_ok leftover g_db_meta =
    if not malloc_ok
    then none
    else (let buf_size = 1024 + length g_db_meta * (path_max * 2 + 2048) in
        elim (append_metas leftover buf_size true g_db_meta (codes "{\"databases\":[")) [
          | none ↦ none
          | some buf ↦
              let whole = buf ++ codes "],\"count\":" ++ dec (length g_db_meta) ++ codes "}" in
              if leb buf_size (length whole) then none else some whole
        ])

-- a negative index is out of range, as one from `g_db_meta_count` on
unfoldable pub build_database_json : Bool → Bytes → List DbMeta → ℕ → Option Bytes
build_database_json malloc_ok leftover g_db_meta index = elim (get_elem? g_db_meta index) [
  | none ↦ none
  | some meta ↦
      if not malloc_ok || leb 1024 (length (meta_json leftover meta))
      then none
      else some (meta_json leftover meta)
]
