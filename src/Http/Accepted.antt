-- ===== src/Http/Accepted.antt =====
-- The headers leave the path alone, so a whole request has a safe one.
use local_marks.Prelude.{
  ℕ, zero, suc, ◌≡◌, ◌≢◌, refl, sym, ◌∙◌, Bool, true, false, Option, none, some, List, [], ◌∷◌,
  ◌++◌, map, if◌then◌else◌, length, drop, arith,
}
use mathlib.Core.Path.{subst}
use local_marks.Prelude.Int.{negsuc}
use local_marks.Prelude.Bytes.{
  Bytes, codes, str_eq, starts_with, split_at_byte, to_lower, c_str, snprintf_s,
}
use local_marks.Http.{HttpRequest, blank_request}
use local_marks.Http.Line.{parse_request_line}
use local_marks.Http.Header.{
  store_header, parse_header, parse_range, str_trim, strtoll_or_minus_one,
}
use local_marks.Http.Read.{read_headers}
use local_marks.Http.Parse.{next_line, parse_headers, parse_lines, http_parse_request}
use local_marks.Http.Safety.{IsSafe, SafeIfAccepted, parse_request_line-safe}

if_path :
    (b : Bool) (x y : HttpRequest) {p : Bytes}
    → x.path ≡ p
    → y.path ≡ p
    → (if b then x else y).path ≡ p
if_path true x y h k = h
if_path false x y h k = k

parse_range-path : (spec : Bytes) (r : HttpRequest) → (parse_range spec r).path ≡ r.path
unfolding parse_range
parse_range-path spec r = go (split_at_byte b'-' spec)
  where
    go :
        (o : Option (Bytes × Bytes))
        → (elim o as (λ x. HttpRequest) [
          | none ↦ r
          | some ([], after) ↦ record r { range_start = strtoll_or_minus_one spec }
          | some (c ∷ before, after) ↦ record r {
            range_start = strtoll_or_minus_one spec;
            range_end = elim after [ [] ↦ negsuc 0 | number ↦ strtoll_or_minus_one number ];
          }
        ]).path
          ≡ r.path
    go none = refl
    go (some ([], after)) = refl
    go (some (c ∷ before, after)) = refl

store_header-path :
    (lname value : Bytes) (r : HttpRequest) → (store_header lname value r).path ≡ r.path
unfolding store_header
store_header-path lname value r = if_path (str_eq lname (codes "host")) _ _ refl (
    if_path (str_eq lname (codes "authorization")) _ _ refl (
      if_path (str_eq lname (codes "connection")) _ _ refl (
        if_path (str_eq lname (codes "if-none-match")) _ _ refl (
          if_path (str_eq lname (codes "if-modified-since")) _ _ refl (
            if_path (str_eq lname (codes "range")) _ _
              (if_path (starts_with (codes "bytes=") value) _ _ (parse_range-path (drop 6 value) r)
                refl)
              refl)))))

parse_header-path : (line : Bytes) (r : HttpRequest) → (parse_header line r).path ≡ r.path
unfolding parse_header
parse_header-path line r = go (split_at_byte b':' line)
  where
    go :
        (o : Option (Bytes × Bytes))
        → (elim o as (λ x. HttpRequest) [
          | none ↦ r
          | some (name, value) ↦
              store_header (map to_lower (snprintf_s 256 (str_trim name))) (str_trim value) r
        ]).path
          ≡ r.path
    go none = refl
    go (some (name, value)) =
        store_header-path (map to_lower (snprintf_s 256 (str_trim name))) (str_trim value) r

abbrev pub one_header : Bytes → HttpRequest → HttpRequest
one_header line r = elim line [ [] ↦ r | header ↦ parse_header header r ]

one_header-path : (line : Bytes) (r : HttpRequest) → (one_header line r).path ≡ r.path
one_header-path [] r = refl
one_header-path (c ∷ line) r = parse_header-path (c ∷ line) r

parse_headers-path :
    (fuel : ℕ) (text : Bytes) (r : HttpRequest) → (parse_headers fuel text r).path ≡ r.path
unfolding parse_headers
parse_headers-path fuel [] r = refl
parse_headers-path zero (c ∷ text) r = refl
parse_headers-path (suc fuel) (c ∷ text) r =
    parse_headers-path fuel (next_line (c ∷ text)).1 (one_header (next_line (c ∷ text)).0 r)
    ∙ one_header-path (next_line (c ∷ text)).0 r

blank_path : (a b : Bytes) → [] ≢ a ++ codes ".." ++ b
blank_path [] b e = ground arith
blank_path (x ∷ a) b e = ground arith

parse_lines-safe :
    (text : Bytes) (r : HttpRequest) → IsSafe r.path → SafeIfAccepted (parse_lines text r)
unfolding parse_lines
parse_lines-safe [] r safe = λ h. safe
parse_lines-safe (c ∷ text) r safe =
    go (parse_request_line (next_line (c ∷ text)).0 r)
      (parse_request_line-safe (next_line (c ∷ text)).0 r)
  where
    go :
        (o : Bool × HttpRequest)
        → SafeIfAccepted o
        → SafeIfAccepted (
            if o.0
            then (
              true,
              parse_headers (length (next_line (c ∷ text)).1) (next_line (c ∷ text)).1 o.1,
            )
            else (false, o.1))
    go (true, r') h = λ e.
        subst IsSafe
          (sym (parse_headers-path (length (next_line (c ∷ text)).1) (next_line (c ∷ text)).1 r'))
          (h refl)
    go (false, r') h = λ e. ground arith

-- Whatever the socket delivers, a request that `http_parse_request` accepts has a path that fits its
-- buffer, holds no NUL and nowhere "..".
pub http_parse_request-safe :
    (malloc_ok : Bool) (segments : List Bytes)
    → SafeIfAccepted (http_parse_request malloc_ok segments).0
unfolding http_parse_request
http_parse_request-safe false segments = λ h. ground arith
http_parse_request-safe true segments = go (read_headers 8191 segments)
  where
    go :
        (o : Option (Bytes × List Bytes))
        → SafeIfAccepted
            (elim o as (λ x. (Bool × HttpRequest) × List Bytes) [
              | none ↦ ((false, blank_request), [])
              | some (raw, segments') ↦ (
                parse_lines
                    (c_str raw)
                    (record blank_request { raw = some raw; raw_len = length raw }),
                segments',
              )
            ]).0
    go none = λ h. ground arith
    go (some (raw, segments')) =
        parse_lines-safe (c_str raw) (record blank_request { raw = some raw; raw_len = length raw })
          (omega arith, tt, λ a b. blank_path a b)
