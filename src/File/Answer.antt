-- ===== src/File/Answer.antt =====
-- The status of every answer of `file_serve`, and the bytes of the file that it holds.
use local_marks.Prelude.{
  ◌+◌, ◌-◌, ◌≡◌, Bool, true, false, Option, none, some, [], length, take, drop,
}
use local_marks.Prelude.Bytes.{Bytes}
use local_marks.Prelude.Int.{ℤ, pos_part}
use local_marks.Http.{HttpMethod, http_get, http_head, http_other, HttpRequest}
use local_marks.Vfs.{VfsEntry}
use local_marks.Response.{Response}
use local_marks.Response.Framing.{announced, sent_body}
use local_marks.File.{Slice, whole, part, unsatisfiable, build_etag, etag_matches, entry_bytes}
use local_marks.File.Range.{Range, asked}

-- the bytes that go out for a request of this method: none for HEAD
abbrev pub for_method : HttpMethod → Bytes → Bytes
for_method http_get bytes = bytes
for_method http_head bytes = []
for_method http_other bytes = bytes

-- these bytes are announced, and sent unless the method is HEAD
abbrev pub Delivers : HttpMethod → Bytes → Response → Type 0
Delivers m bytes r =
    (announced r ≡ bytes) × (r.body_len ≡ length bytes) × (sent_body r ≡ for_method m bytes)

-- the bytes from the first to the last of a part
unfoldable pub bytes_between : ℤ → ℤ → Bytes → Bytes
bytes_between first last bytes =
    take (pos_part last + 1 - pos_part first) (drop (pos_part first) bytes)

-- what a part of a file is answered with
abbrev pub Serves : HttpMethod → Bytes → Slice → Response → Type 0
Serves m bytes whole r = (r.status ≡ 200) × Delivers m bytes r
Serves m bytes (part first last) r =
    (r.status ≡ 206) × Delivers m (bytes_between first last bytes) r
Serves m bytes unsatisfiable r = (r.status ≡ 416) × Delivers m [] r

-- what a file is answered with, when the request has its tag and when not
abbrev pub ServesEntry : HttpMethod → Range → VfsEntry → Bool → Response → Type 0
ServesEntry m range e true r = (r.status ≡ 304) × Delivers m [] r
ServesEntry m range e false r = Serves m (entry_bytes e) (asked e.file_len range) r

abbrev pub ServesFound : HttpRequest → Range → Option VfsEntry → Response → Type 0
ServesFound req range none r = r.status ≡ 404
ServesFound req range (some e) r =
    ServesEntry req.method range e
      (etag_matches req.if_none_match (build_etag e.content_hash e.file_len)) r

abbrev pub Answers : HttpRequest → Range → HttpMethod → Option VfsEntry → Response → Type 0
Answers req range http_get o r = ServesFound req range o r
Answers req range http_head o r = ServesFound req range o r
Answers req range http_other o r = r.status ≡ 405
