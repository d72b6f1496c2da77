-- ===== src/Http/Line.antt =====
-- `parse_request_line` of src/http.c.
use local_marks.Prelude.{
  ℕ, ◌-◌, Bool, true, false, not, ◌&&◌, none, some, [], map, min, leb, ◌==◌, if◌then◌else◌, length,
}
use local_marks.Prelude.Bytes.{Bytes, codes, str_eq, split_at_byte, strstr, c_str, snprintf_s}
use local_marks.Http.{HttpMethod, http_get, http_head, http_other, HttpRequest}
use local_marks.Http.Url.{http_url_decode}

unfoldable pub to_upper : ℕ → ℕ
to_upper c = if leb b'a' c && leb c b'z' then c - 32 else c

unfoldable pub method_of : Bytes → HttpMethod
method_of line =
    if str_eq line (codes "GET")
    then http_get
    else if str_eq line (codes "HEAD")
    then http_head
    else http_other

-- `strchr(s, c)` and a NUL written there: what is before it
unfoldable pub cut_at : ℕ → Bytes → Bytes
cut_at c s = elim (split_at_byte c s) [ none ↦ s | some (before, after) ↦ before ]

-- the query string, or the empty one
unfoldable pub query_of : Bytes → Bytes
query_of uri = elim (split_at_byte b'?' uri) [
  | none ↦ []
  | some (before, after) ↦ snprintf_s 2048 after
]

-- the tests on the decoded path: `strlen(path) != strnlen(path, sizeof path)`, and ".."
unfoldable pub path_accepted : Bytes → Bool
path_accepted path =
    if not (length path == min 4096 (length path))
    then false
    else elim (strstr (codes "..") path) [ none ↦ true | some at ↦ false ]

-- from the URI on, the method being set
unfoldable pub parse_uri : Bytes → HttpRequest → Bool × HttpRequest
parse_uri rest r = elim (split_at_byte b' ' rest) [
  | none ↦ (false, r)
  | some (uri, version) ↦
      let path = c_str (http_url_decode 4096 (cut_at b'?' uri)) in
      (
        path_accepted path,
        record r { path = path; query = query_of uri; version = cut_at 13 (snprintf_s 16 version) },
      )
]

-- The flag is false for the -1 of a malformed line.
unfoldable pub parse_request_line : Bytes → HttpRequest → Bool × HttpRequest
parse_request_line line r = elim (split_at_byte b' ' line) [
  | none ↦ (false, r)
  | some (name, rest) ↦
      parse_uri rest
        (record r { method = method_of name; method_str = map to_upper (snprintf_s 16 name) })
]
