-- ===== src/Http/Arrays.antt =====
-- The strings of a request and their arrays (src/http.h).
use local_marks.Prelude.{
  ℕ, ◌<◌, inl, inr, Bool, true, false, Option, none, some, List, [], ◌∷◌, map, length, arith,
  length-map, Option-cases, Bool-cases,
}
use local_marks.Prelude.Bytes.{Bytes, c_str, snprintf_s, split_at_byte}
use local_marks.Http.{HttpRequest, blank_request}
use local_marks.Http.Url.{http_url_decode, length-url_decode}
use local_marks.Http.Line.{to_upper, method_of, cut_at, query_of, parse_uri, parse_request_line}
use local_marks.Http.Safety.{length-c_str}
use local_marks.Http.Read.{read_headers}
use local_marks.Http.Parse.{next_line, parse_lines, http_parse_request}
use local_marks.Http.Fits.{FitsArrays, length-snprintf, length-cut_at, parse_headers-FitsArrays}

query_of-fits : (uri : Bytes) → length (query_of uri) < 2048
unfolding query_of
query_of-fits uri = elim (Option-cases (split_at_byte b'?' uri)) [
  | inl plain ↦ rw (query_of, plain) (omega arith)
  | inr ((before, after), found) ↦ rw (query_of, found) (length-snprintf 2048 after (omega arith))
]

parse_uri-FitsArrays :
    (rest : Bytes) (r : HttpRequest) → FitsArrays r → FitsArrays (parse_uri rest r).1
unfolding parse_uri
parse_uri-FitsArrays rest r k = elim (Option-cases (split_at_byte b' ' rest)) [
  | inl malformed ↦ rw (parse_uri, malformed) k
  | inr ((uri, version), found) ↦
      rw (parse_uri, found)
        (record {
          method_str = k.method_str;
          path =
              (omega (
                arith,
                length-c_str (http_url_decode 4096 (cut_at b'?' uri)),
                length-url_decode 4096 (cut_at b'?' uri) (omega arith),
              ));
          query = (query_of-fits uri);
          version =
              (omega (
                arith,
                length-cut_at 13 (snprintf_s 16 version),
                length-snprintf 16 version (omega arith),
              ));
          host = k.host;
          auth = k.auth;
          connection = k.connection;
          if_none_match = k.if_none_match;
          if_modified_since = k.if_modified_since;
        })
]

parse_request_line-FitsArrays :
    (line : Bytes) (r : HttpRequest) → FitsArrays r → FitsArrays (parse_request_line line r).1
unfolding parse_request_line
parse_request_line-FitsArrays line r k = elim (Option-cases (split_at_byte b' ' line)) [
  | inl malformed ↦ rw (parse_request_line, malformed) k
  | inr ((name, rest), found) ↦
      rw (parse_request_line, found)
        (parse_uri-FitsArrays rest
          (record r { method = method_of name; method_str = map to_upper (snprintf_s 16 name) })
          (record {
            method_str =
                (omega (
                  arith,
                  length-map (snprintf_s 16 name) to_upper,
                  length-snprintf 16 name (omega arith),
                ));
            path = k.path;
            query = k.query;
            version = k.version;
            host = k.host;
            auth = k.auth;
            connection = k.connection;
            if_none_match = k.if_none_match;
            if_modified_since = k.if_modified_since;
          }))
]

parse_lines-FitsArrays :
    (text : Bytes) (r : HttpRequest) → FitsArrays r → FitsArrays (parse_lines text r).1
unfolding parse_lines
parse_lines-FitsArrays [] r k = k
parse_lines-FitsArrays (c ∷ text) r k =
    let first = next_line (c ∷ text) in
    let q = parse_request_line first.0 r in
    let k' = parse_request_line-FitsArrays first.0 r k in
    elim (Bool-cases q.0) [
      | inl well_formed ↦ rw well_formed (parse_headers-FitsArrays (length first.1) first.1 q.1 k')
      | inr malformed ↦ rw malformed k'
    ]

blank-FitsArrays :
    (raw : Option Bytes) (n : ℕ) → FitsArrays (record blank_request { raw = raw; raw_len = n })
blank-FitsArrays raw n = record {
  method_str = omega arith;
  path = omega arith;
  query = omega arith;
  version = omega arith;
  host = omega arith;
  auth = omega arith;
  connection = omega arith;
  if_none_match = omega arith;
  if_modified_since = omega arith;
}

-- Whatever the socket delivers, and whether the request is accepted or not, every string of the request
-- fits with its NUL in the array that the struct has for it.
pub http_parse_request-FitsArrays :
    (malloc_ok : Bool) (segments : List Bytes)
    → FitsArrays (http_parse_request malloc_ok segments).0.1
unfolding http_parse_request
http_parse_request-FitsArrays false segments = blank-FitsArrays none 0
http_parse_request-FitsArrays true segments = elim (Option-cases (read_headers 8191 segments)) [
  | inl gave_up ↦ rw (http_parse_request, gave_up) (blank-FitsArrays none 0)
  | inr ((raw, rest), got) ↦
      rw (http_parse_request, got)
        (parse_lines-FitsArrays (c_str raw)
          (record blank_request { raw = some raw; raw_len = length raw })
          (blank-FitsArrays (some raw) (length raw)))
]
