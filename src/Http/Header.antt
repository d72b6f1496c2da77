-- ===== src/Http/Header.antt =====
-- `parse_header` of src/http.c, with the `strtoll` that it calls.
use local_marks.Prelude.{
  ℕ, ◌+◌, ◌-◌, ◌*◌, ◌^◌, Bool, true, false, not, ◌&&◌, none, some, [], ◌∷◌, map, ltb, leb, ◌==◌,
  if◌then◌else◌, drop,
}
use local_marks.Prelude.Int.{ℤ, pos, negsuc}
use local_marks.Prelude.Bytes.{
  Bytes, codes, str_eq, starts_with, split_at_byte, to_lower, is_space, snprintf_s,
}
use local_marks.Http.{HttpRequest}

unfoldable pub trim_start : Bytes → Bytes
trim_start [] = []
trim_start (c ∷ s) = if is_space c then trim_start s else c ∷ s

unfoldable pub trim_end : Bytes → Bytes
trim_end [] = []
trim_end (c ∷ s) = elim (trim_end s) [ [] ↦ if is_space c then [] else c ∷ [] | x ∷ t ↦ c ∷ x ∷ t ]

unfoldable pub str_trim : Bytes → Bytes
unfolding trim_start trim_end
str_trim s = trim_end (trim_start s)

unfoldable pub is_digit : ℕ → Bool
is_digit c = leb b'0' c && leb c b'9'

-- the value of the leading digits, whether there is one, and what follows them
unfoldable pub read_digits : ℕ → Bool → Bytes → ℕ × Bool × Bytes
unfolding is_digit
read_digits acc seen [] = (acc, seen, [])
read_digits acc seen (c ∷ s) =
    let more = read_digits (acc * 10 + (c - 48)) true s in
    if is_digit c then more else (acc, seen, c ∷ s)

-- what `strtoll(s, &end, 10)` returns: the value, whether `errno` is ERANGE, and `end`
pub record Strtoll : Type 0 where
  pub value : ℤ
  pub erange : Bool
  pub end : Bytes

-- the sign and digits at `s`; without digits the value is 0 and `end` is the whole text
unfoldable pub strtoll_signed : Bytes → Bool → Bytes → Strtoll
unfolding read_digits
strtoll_signed whole negative s =
    let (n, seen, rest) = read_digits 0 false s in
    if not seen
    then record { value = pos 0; erange = false; end = whole }
    else if negative
    then (if ltb (2 ^ 63) n
        then record { value = negsuc (2 ^ 63 - 1); erange = true; end = rest }
        else record {
          value = (if n == 0 then pos 0 else negsuc (n - 1));
          erange = false;
          end = rest;
        })
    else if leb (2 ^ 63) n
    then record { value = pos (2 ^ 63 - 1); erange = true; end = rest }
    else record { value = pos n; erange = false; end = rest }

unfoldable pub strtoll_at : Bytes → Bytes → Strtoll
unfolding strtoll_signed
strtoll_at whole [] = strtoll_signed whole false []
strtoll_at whole (c ∷ s) =
    if c == b'-'
    then strtoll_signed whole true s
    else if c == b'+'
    then strtoll_signed whole false s
    else strtoll_signed whole false (c ∷ s)

unfoldable pub strtoll : Bytes → Strtoll
unfolding strtoll_at trim_start
strtoll s = strtoll_at s (trim_start s)

-- `errno = 0; v = strtoll(...); if (errno != 0) v = -1`
unfoldable pub strtoll_or_minus_one : Bytes → ℤ
strtoll_or_minus_one s = let r = strtoll s in if r.erange then negsuc 0 else r.value

-- the part of a Range value behind "bytes="
unfoldable pub parse_range : Bytes → HttpRequest → HttpRequest
parse_range spec r = elim (split_at_byte b'-' spec) [
  | none ↦ r
  | some ([], after) ↦ record r { range_start = strtoll_or_minus_one spec }
  | some (c ∷ before, after) ↦ record r {
    range_start = strtoll_or_minus_one spec;
    range_end = elim after [ [] ↦ negsuc 0 | number ↦ strtoll_or_minus_one number ];
  }
]

-- the field of a header name in lower case
unfoldable pub store_header : Bytes → Bytes → HttpRequest → HttpRequest
store_header lname value r =
    if str_eq lname (codes "host")
    then record r { host = snprintf_s 256 value }
    else if str_eq lname (codes "authorization")
    then record r { auth = snprintf_s 512 value }
    else if str_eq lname (codes "connection")
    then record r { connection = snprintf_s 32 value }
    else if str_eq lname (codes "if-none-match")
    then record r { if_none_match = snprintf_s 128 value }
    else if str_eq lname (codes "if-modified-since")
    then record r { if_modified_since = snprintf_s 64 value }
    else if str_eq lname (codes "range")
    then (if starts_with (codes "bytes=") value then parse_range (drop 6 value) r else r)
    else r

unfoldable pub parse_header : Bytes → HttpRequest → HttpRequest
parse_header line r = elim (split_at_byte b':' line) [
  | none ↦ r
  | some (name, value) ↦
      store_header (map to_lower (snprintf_s 256 (str_trim name))) (str_trim value) r
]
