-- ===== src/Http/Fits.antt =====
-- The strings that a header sets and their arrays (src/http.h).
use local_marks.Prelude.{
  ℕ, zero, suc, ◌-◌, ◌≤◌, ◌<◌, inl, inr, ap, Bool, true, false, [], ◌∷◌, map, if◌then◌else◌, length,
  drop, arith, length-append, length-take-le, Option-cases,
}
use local_marks.Prelude.Bytes.{
  Bytes, codes, str_eq, snprintf_s, split_at_byte, split_at_byte-append, starts_with, to_lower,
}
use local_marks.Prelude.Int.{ℤ}
use local_marks.Http.{HttpRequest}
use local_marks.Http.Line.{cut_at}
use local_marks.Http.Header.{
  str_trim, strtoll_or_minus_one, parse_range, store_header, parse_header,
}
use local_marks.Http.Accepted.{one_header}
use local_marks.Http.Parse.{next_line, parse_headers}

-- each text and its NUL, in the array that the struct has for it
pub record FitsArrays (r : HttpRequest) : Type 0 where
  pub method_str : length r.method_str < 16
  pub path : length r.path < 4096
  pub query : length r.query < 2048
  pub version : length r.version < 16
  pub host : length r.host < 256
  pub auth : length r.auth < 512
  pub connection : length r.connection < 32
  pub if_none_match : length r.if_none_match < 128
  pub if_modified_since : length r.if_modified_since < 64

pub length-snprintf : (size : ℕ) (s : Bytes) → 0 < size → length (snprintf_s size s) < size
length-snprintf size s h = omega (arith, length-take-le (size - 1) s)

pub length-cut_at : (c : ℕ) (s : Bytes) → length (cut_at c s) ≤ length s
unfolding cut_at
length-cut_at c s = elim (Option-cases (split_at_byte c s)) [
  | inl whole ↦ rw (cut_at, whole) (omega arith)
  | inr ((a, b), found) ↦
      let e = ap (λ t. length t) (split_at_byte-append c s found) in
      rw (cut_at, found) (omega (arith, e, length-append a (c ∷ b)))
]

if_FitsArrays :
    (b : Bool) (x y : HttpRequest) → FitsArrays x → FitsArrays y → FitsArrays (if b then x else y)
if_FitsArrays true x y f g = f
if_FitsArrays false x y f g = g

-- the strings of two requests that differ in none of them
same_strings :
    (f : HttpRequest) (a b : ℤ)
    → FitsArrays f
    → FitsArrays (record f { range_start = a; range_end = b })
same_strings f a b k = record {
  method_str = k.method_str;
  path = k.path;
  query = k.query;
  version = k.version;
  host = k.host;
  auth = k.auth;
  connection = k.connection;
  if_none_match = k.if_none_match;
  if_modified_since = k.if_modified_since;
}

parse_range-FitsArrays :
    (spec : Bytes) (r : HttpRequest) → FitsArrays r → FitsArrays (parse_range spec r)
unfolding parse_range
parse_range-FitsArrays spec r k = elim (Option-cases (split_at_byte b'-' spec)) [
  | inl no_dash ↦ rw (parse_range, no_dash) k
  | inr (([], after), found) ↦
      rw (parse_range, found) (same_strings r (strtoll_or_minus_one spec) r.range_end k)
  | inr ((c ∷ before, after), found) ↦
      rw (parse_range, found) (same_strings r (strtoll_or_minus_one spec) _ k)
]

store_header-FitsArrays :
    (lname value : Bytes) (r : HttpRequest) → FitsArrays r → FitsArrays (store_header lname value r)
unfolding store_header
store_header-FitsArrays lname value r k =
    if_FitsArrays (str_eq lname (codes "host")) _ _
      (record {
        method_str = k.method_str;
        path = k.path;
        query = k.query;
        version = k.version;
        host = (length-snprintf 256 value (omega arith));
        auth = k.auth;
        connection = k.connection;
        if_none_match = k.if_none_match;
        if_modified_since = k.if_modified_since;
      })
      (if_FitsArrays (str_eq lname (codes "authorization")) _ _
        (record {
          method_str = k.method_str;
          path = k.path;
          query = k.query;
          version = k.version;
          host = k.host;
          auth = (length-snprintf 512 value (omega arith));
          connection = k.connection;
          if_none_match = k.if_none_match;
          if_modified_since = k.if_modified_since;
        })
        (if_FitsArrays (str_eq lname (codes "connection")) _ _
          (record {
            method_str = k.method_str;
            path = k.path;
            query = k.query;
            version = k.version;
            host = k.host;
            auth = k.auth;
            connection = (length-snprintf 32 value (omega arith));
            if_none_match = k.if_none_match;
            if_modified_since = k.if_modified_since;
          })
          (if_FitsArrays (str_eq lname (codes "if-none-match")) _ _
            (record {
              method_str = k.method_str;
              path = k.path;
              query = k.query;
              version = k.version;
              host = k.host;
              auth = k.auth;
              connection = k.connection;
              if_none_match = (length-snprintf 128 value (omega arith));
              if_modified_since = k.if_modified_since;
            })
            (if_FitsArrays (str_eq lname (codes "if-modified-since")) _ _
              (record {
                method_str = k.method_str;
                path = k.path;
                query = k.query;
                version = k.version;
                host = k.host;
                auth = k.auth;
                connection = k.connection;
                if_none_match = k.if_none_match;
                if_modified_since = (length-snprintf 64 value (omega arith));
              })
              (if_FitsArrays (str_eq lname (codes "range")) _ _
                (if_FitsArrays (starts_with (codes "bytes=") value) _ _
                  (parse_range-FitsArrays (drop 6 value) r k) k)
                k)))))

parse_header-FitsArrays :
    (line : Bytes) (r : HttpRequest) → FitsArrays r → FitsArrays (parse_header line r)
unfolding parse_header
parse_header-FitsArrays line r k = elim (Option-cases (split_at_byte b':' line)) [
  | inl no_colon ↦ rw (parse_header, no_colon) k
  | inr ((name, value), found) ↦
      rw (parse_header, found)
        (store_header-FitsArrays (map to_lower (snprintf_s 256 (str_trim name))) (str_trim value) r
          k)
]

one_header-FitsArrays :
    (line : Bytes) (r : HttpRequest) → FitsArrays r → FitsArrays (one_header line r)
one_header-FitsArrays [] r k = k
one_header-FitsArrays (c ∷ line) r k = parse_header-FitsArrays (c ∷ line) r k

pub parse_headers-FitsArrays :
    (fuel : ℕ) (text : Bytes) (r : HttpRequest)
    → FitsArrays r
    → FitsArrays (parse_headers fuel text r)
unfolding parse_headers
parse_headers-FitsArrays fuel [] r k = k
parse_headers-FitsArrays zero (c ∷ text) r k = k
parse_headers-FitsArrays (suc fuel) (c ∷ text) r k =
    parse_headers-FitsArrays fuel (next_line (c ∷ text)).1 (one_header (next_line (c ∷ text)).0 r)
      (one_header-FitsArrays (next_line (c ∷ text)).0 r k)
