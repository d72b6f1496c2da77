-- ===== src/Http/Safety.antt =====
-- The path that a parsed request carries.
use local_marks.Prelude.{
  ℕ, ◌≤◌, ◌<◌, ◌≡◌, ◌≢◌, inl, inr, refl, Bool, true, false, not, Option, none, some, [], ◌∷◌, ◌++◌,
  map, min, ◌==◌, if◌then◌else◌, length, arith, Bool-cases,
}
use mathlib.Core.Path.{subst}
use local_marks.Prelude.Bytes.{
  Bytes, codes, starts_with, split_at_byte, strstr, c_str, HasNo, snprintf_s,
}
use local_marks.Http.{HttpRequest}
use local_marks.Http.Url.{http_url_decode, length-url_decode}
use local_marks.Http.Line.{
  cut_at, query_of, path_accepted, parse_uri, method_of, to_upper, parse_request_line,
}

-- The path fits its buffer, has no NUL and no ".." anywhere.
abbrev pub IsSafe : Bytes → Type 0
IsSafe path = (length path < 4096) × HasNo 0 path × ((a b : Bytes) → path ≢ a ++ codes ".." ++ b)

starts_with-append : (p b : Bytes) → starts_with p (p ++ b) ≡ true
unfolding starts_with
starts_with-append [] b = refl
starts_with-append (x ∷ p) b = ground (arith, starts_with-append p b)

strstr-append : (x : ℕ) (p a b : Bytes) → strstr (x ∷ p) (a ++ (x ∷ p) ++ b) ≢ none
unfolding strstr starts_with
strstr-append x p [] b e = ground (arith, starts_with-append p b)
strstr-append x p (y ∷ a) b e = ground (arith, strstr-append x p a b)

HasNo-c_str : (s : Bytes) → HasNo 0 (c_str s)
unfolding c_str
HasNo-c_str [] = tt
HasNo-c_str (x ∷ s) = elim (Bool-cases (x == 0)) [
  | inl nul ↦ rw nul tt
  | inr other ↦ rw other (ground arith, HasNo-c_str s)
]

pub length-c_str : (s : Bytes) → length (c_str s) ≤ length s
unfolding c_str
length-c_str [] = omega arith
length-c_str (x ∷ s) = ground (arith, length-c_str s)

path_accepted-strstr : (path : Bytes) → path_accepted path ≡ true → strstr (codes "..") path ≡ none
unfolding path_accepted
path_accepted-strstr path h =
    go (not (length path == min 4096 (length path))) (strstr (codes "..") path) h
  where
    go :
        (long : Bool) (o : Option (Bytes × Bytes))
        → (if long then false else elim o [ none ↦ true | some at ↦ false ]) ≡ true
        → o ≡ none
    go true o h = ground arith
    go false none h = refl
    go false (some at) h = ground arith

path_accepted-IsSafe :
    (uri : Bytes)
    → path_accepted (c_str (http_url_decode 4096 uri)) ≡ true
    → IsSafe (c_str (http_url_decode 4096 uri))
path_accepted-IsSafe uri h = (
  omega (arith, length-c_str (http_url_decode 4096 uri), length-url_decode 4096 uri),
  HasNo-c_str (http_url_decode 4096 uri),
  λ a b e. strstr-append b'.' (codes ".") a b (
      subst (λ s. strstr (codes "..") s ≡ none) e
        (path_accepted-strstr (c_str (http_url_decode 4096 uri)) h)),
)

-- an accepted outcome has a safe path
abbrev pub SafeIfAccepted : Bool × HttpRequest → Type 0
SafeIfAccepted (accepted, r) = accepted ≡ true → IsSafe r.path

parse_uri-safe : (rest : Bytes) (r : HttpRequest) → SafeIfAccepted (parse_uri rest r)
unfolding parse_uri
parse_uri-safe rest r =
    elim (split_at_byte b' ' rest)
      as (λ o. SafeIfAccepted (elim o [
        | none ↦ (false, r)
        | some (uri, version) ↦
            let path = c_str (http_url_decode 4096 (cut_at b'?' uri)) in
            (
              path_accepted path,
              record r {
                path = path;
                query = query_of uri;
                version = cut_at 13 (snprintf_s 16 version);
              },
            )
      ])) [
        | none ↦ λ h. ground arith
        | some (uri, version) ↦ path_accepted-IsSafe (cut_at b'?' uri)
      ]

-- A request line that `parse_request_line` accepts has a path that fits its buffer, holds no NUL and
-- nowhere "..", also after the percent-decoding.
pub parse_request_line-safe :
    (line : Bytes) (r : HttpRequest) → SafeIfAccepted (parse_request_line line r)
unfolding parse_request_line
parse_request_line-safe line r = go (split_at_byte b' ' line)
  where
    go :
        (o : Option (Bytes × Bytes))
        → SafeIfAccepted (elim o [
          | none ↦ (false, r)
          | some (name, rest) ↦
              parse_uri rest (record r {
                method = method_of name;
                method_str = map to_upper (snprintf_s 16 name);
              })
        ])
    go none = λ h. ground arith
    go (some (name, rest)) =
        parse_uri-safe rest
          (record r { method = method_of name; method_str = map to_upper (snprintf_s 16 name) })
