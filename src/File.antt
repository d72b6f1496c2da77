-- ===== src/File.antt =====
-- src/file.c: an embedded file as a response. `long` and `int64_t` values are integers; a file is
-- shorter than 2^63 bytes, so none of the sums overflows. The log lines are left out.
pub mod Range
pub mod Serve
pub mod Answer
mod Tests
use local_marks.Prelude.{
  ℕ, zero, suc, ◌+◌, ◌-◌, ◌*◌, ◌/◌, ◌%◌, ◌^◌, ◌≤◌, ◌<◌, ◌≡◌, ◌≢◌, ◌↔◌, ◌⊎◌, inl, inr, refl, sym, ap,
  ◌∙◌, Bool, true, false, not, ◌&&◌, ◌||◌, Option, none, some, List, [], ◌∷◌, ◌++◌, map, append-nil,
  append_assoc, min, ltb, leb, ◌==◌, if◌then◌else◌, length, get_or, get_elem?, set, replicate, take,
  drop, arith, tests, All, All-get, All-set, All-append, All-replicate, length-set, length-map,
  length-append, length-replicate, length-take, length-take-le, length-drop, take_of_le,
  get_or-set_self, get_or-set_ne, get_or-replicate, Option-cases, Bool-cases, ==_iff, ltb→lt,
  lt→ltb, leb→le,
}
use local_marks.Prelude.Int.{ℤ, pos, negsuc, pos_part, neg_part, ◌+ℤ◌, sub_ℕ, ltb_ℤ, leb_ℤ}
use local_marks.Prelude.Bytes.{Bytes, codes, str_eq, dec, padded, to_base, snprintf_s}
use local_marks.Http.{HttpMethod, http_get, http_head, http_other, HttpRequest}
use local_marks.Mime.{mime_from_path}
use local_marks.Response.{Response, response_error, crlf}
use local_marks.Vfs.{VfsEntry, Slots, vfs_lookup}

-- `build_etag`: `"%08x-%zx"` in quotes, in a buffer of 64 bytes
unfoldable pub build_etag : ℕ → ℕ → Bytes
build_etag content_hash file_len =
    snprintf_s 64
      (codes "\"" ++ padded 16 8 content_hash ++ codes "-" ++ to_base 16 file_len ++ codes "\"")

-- the path to look up: without the leading slash, and index.html for the root
unfoldable pub vfs_path : Bytes → Bytes
vfs_path [] = codes "index.html"
vfs_path (c ∷ path) =
    if c == b'/' then elim path [ [] ↦ codes "index.html" | other ↦ other ] else c ∷ path

unfoldable pub is_gzipped : Bytes → Bool
is_gzipped [] = false
is_gzipped (a ∷ []) = false
is_gzipped (a ∷ b ∷ s) = a == 0x1f && b == 0x8b

-- What the range handling decides: no range, a range from the first to the last byte, or a range that
-- cannot be satisfied.
pub data Slice : Type 0 where
  whole : Slice
  part : ℤ → ℤ → Slice
  unsatisfiable : Slice

-- the clamps and the test that follow the computation of `range_first` and `range_last`
unfoldable pub clamp_range : ℕ → ℤ → ℤ → Slice
clamp_range len range_first range_last =
    let first = if ltb_ℤ range_first (pos 0) then pos 0 else range_first in
    let last = if leb_ℤ (pos len) range_last then pos len +ℤ negsuc 0 else range_last in
    if ltb_ℤ last first || leb_ℤ (pos len) first then unsatisfiable else part first last

unfoldable pub is_minus_one : ℤ → Bool
is_minus_one (pos n) = false
is_minus_one (negsuc n) = n == 0

unfoldable pub range_slice : ℕ → ℤ → ℤ → Slice
range_slice len range_start range_end =
    if is_minus_one range_start
    then whole
    else if ltb_ℤ range_start (pos 0)
    then (let first = pos len +ℤ range_start in
        clamp_range len (if ltb_ℤ first (pos 0) then pos 0 else first) (pos len +ℤ negsuc 0))
    else clamp_range len range_start
        (if leb_ℤ (pos 0) range_end then range_end else pos len +ℤ negsuc 0)

-- `%ld`
unfoldable pub dec_ℤ : ℤ → Bytes
dec_ℤ (pos n) = dec n
dec_ℤ (negsuc n) = codes "-" ++ dec (n + 1)

-- the headers of a 200 or 206; `extra` has 512 bytes
unfoldable pub file_headers : Bytes → ℕ → Option (ℤ × ℤ) → Bool → Bytes
file_headers etag len range gzipped =
    let base : Bytes = elim range [
      | none ↦ codes "ETag: " ++ etag ++ crlf ++ codes "Accept-Ranges: bytes" ++ crlf
      | some (first, last) ↦
          codes "ETag: "
          ++ etag
          ++ crlf
          ++ codes "Accept-Ranges: bytes"
          ++ crlf
          ++ codes "Content-Range: bytes "
          ++ dec_ℤ first
          ++ codes "-"
          ++ dec_ℤ last
          ++ codes "/"
          ++ dec len
          ++ crlf
    ] in
    snprintf_s 512
      (snprintf_s 512 base ++ (if gzipped then codes "Content-Encoding: gzip" ++ crlf else []))

-- `data + range_first` and `range_last - range_first + 1`
unfoldable pub file_body : Bytes → ℤ → ℤ → Bytes × ℕ
file_body bytes first last =
    (drop (pos_part first) bytes, pos_part (last +ℤ pos 1) - pos_part first)

unfoldable pub is_head : HttpMethod → Bool
is_head http_get = false
is_head http_head = true
is_head http_other = false

unfoldable pub serve_slice : HttpRequest → VfsEntry → Bytes → Bytes → Bool → Slice → Response
serve_slice req entry bytes etag keep_alive unsatisfiable = record {
  status = 416;
  status_text = codes "Range Not Satisfiable";
  mime = none;
  extra_hdrs =
      some (snprintf_s 128 (codes "Content-Range: bytes */" ++ dec entry.file_len ++ crlf));
  body = none;
  body_len = 0;
  keep_alive = keep_alive;
  send_body = true;
}
serve_slice req entry bytes etag keep_alive whole = record {
  status = 200;
  status_text = codes "OK";
  mime = some (mime_from_path (some entry.file_path));
  extra_hdrs =
      some (file_headers etag entry.file_len none (is_gzipped (take entry.file_len bytes)));
  body = some bytes;
  body_len = entry.file_len;
  keep_alive = keep_alive;
  send_body = not (is_head req.method);
}
serve_slice req entry bytes etag keep_alive (part first last) = record {
  status = 206;
  status_text = codes "Partial Content";
  mime = some (mime_from_path (some entry.file_path));
  extra_hdrs = some (
      file_headers etag entry.file_len (some (first, last))
        (is_gzipped (take entry.file_len bytes)));
  body = some (file_body bytes first last).0;
  body_len = (file_body bytes first last).1;
  keep_alive = keep_alive;
  send_body = not (is_head req.method);
}

-- `req->if_none_match[0] && strcmp(req->if_none_match, etag) == 0`
unfoldable pub etag_matches : Bytes → Bytes → Bool
etag_matches [] etag = false
etag_matches (c ∷ s) etag = str_eq (c ∷ s) etag

unfoldable pub serve_entry : HttpRequest → VfsEntry → Bytes → Bool → Response
serve_entry req entry bytes keep_alive =
    let etag = build_etag entry.content_hash entry.file_len in
    if etag_matches req.if_none_match etag
    then record {
      status = 304;
      status_text = codes "Not Modified";
      mime = none;
      extra_hdrs = some (snprintf_s 256 (codes "ETag: " ++ etag ++ crlf));
      body = none;
      body_len = 0;
      keep_alive = keep_alive;
      send_body = true;
    }
    else serve_slice req entry bytes etag keep_alive
        (range_slice entry.file_len req.range_start req.range_end)

-- the bytes of an entry; a NULL `file_start` is the empty file
unfoldable pub entry_bytes : VfsEntry → Bytes
entry_bytes e = elim e.file_start [ none ↦ [] | some bytes ↦ bytes ]

unfoldable pub serve_lookup : HttpRequest → Bool → Option VfsEntry → Response
serve_lookup req keep_alive none = response_error 404 (some (codes "File not found."))
serve_lookup req keep_alive (some entry) = serve_entry req entry (entry_bytes entry) keep_alive

unfoldable pub file_serve : Slots → HttpRequest → Bool → Response
file_serve slots req keep_alive = elim req.method [
  | http_other ↦ response_error 405 (some (codes "Only GET and HEAD are supported."))
  | supported ↦ serve_lookup req keep_alive (vfs_lookup slots (vfs_path req.path))
]
