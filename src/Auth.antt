-- ===== src/Auth.antt =====
-- src/auth.c: the Base64 decoder and the check of the Authorization header. Buffers are the bytes
-- written to them so far; the six-bit fields of a group do not overlap, so their `|` is `+`.
pub mod Base64
pub mod Bounds
pub mod Check
mod Tests
use local_marks.Prelude.{
  ℕ, zero, suc, ◌+◌, ◌-◌, ◌*◌, ◌/◌, ◌%◌, ◌^◌, ◌≤◌, ◌<◌, ◌≡◌, ◌≢◌, ◌↔◌, ◌⊎◌, inl, inr, refl, sym, ap,
  ◌∙◌, Bool, true, false, not, ◌&&◌, ◌||◌, Option, none, some, List, [], ◌∷◌, ◌++◌, map, append-nil,
  append_assoc, min, ltb, leb, ◌==◌, if◌then◌else◌, length, get_or, get_elem?, set, replicate, take,
  drop, arith, tests, All, All-get, All-set, All-append, All-replicate, length-set, length-map,
  length-append, length-replicate, length-take, length-take-le, length-drop, take_of_le,
  get_or-set_self, get_or-set_ne, get_or-replicate, Option-cases, Bool-cases, ==_iff, ltb→lt,
  lt→ltb, leb→le,
}
use local_marks.Prelude.Bytes.{Bytes, codes, str_eq, starts_with_nocase, split_at_byte, c_str}

-- `b64_char`; none is -1
unfoldable pub b64_char : ℕ → Option ℕ
b64_char c =
    if leb b'A' c && leb c b'Z'
    then some (c - 65)
    else if leb b'a' c && leb c b'z'
    then some (c - 97 + 26)
    else if leb b'0' c && leb c b'9'
    then some (c - 48 + 52)
    else if c == b'+'
    then some 62
    else if c == b'/'
    then some 63
    else none

-- `for (i++; i < 4; i++) if (*src == '=') { src++; pad++; }`, with the rounds left
unfoldable pub skip_padding : ℕ → Bytes → ℕ → Bytes × ℕ
skip_padding zero src pad = (src, pad)
skip_padding (suc left) [] pad = ([], pad)
skip_padding (suc left) (c ∷ src) pad =
    if c == b'=' then skip_padding left src (pad + 1) else skip_padding left (c ∷ src) pad

-- One group: the bits of the characters read so far, how many padding characters there are, and
-- what is left of the source; none is the `return -1`. `left` counts the characters still to read.
unfoldable pub read_group : ℕ → ℕ → Bytes → Option (ℕ × ℕ × Bytes)
read_group zero bits src = some (bits, 0, src)
read_group (suc left) bits [] = none
read_group (suc left) bits (c ∷ src) =
    if c == b'='
    then (let (rest, pad) = skip_padding left src 1 in some (bits * 64 ^ suc left, pad, rest))
    else elim (b64_char c) [ none ↦ none | some n ↦ read_group left (bits * 64 + n) src ]

-- `if (out < dst_len - 1) dst[out++] = byte`
unfoldable pub put_byte : ℕ → Bytes → ℕ → Bytes
put_byte dst_len out byte = if ltb (length out) (dst_len - 1) then out ++ byte ∷ [] else out

unfoldable pub put_group : ℕ → ℕ → ℕ → Bytes → Bytes
put_group dst_len bits pad out =
    let one = put_byte dst_len out (bits / 2 ^ 16 % 256) in
    let two = if ltb pad 2 then put_byte dst_len one (bits / 2 ^ 8 % 256) else one in
    if ltb pad 1 then put_byte dst_len two (bits % 256) else two

pub data Decoded : Type 0 where
  text : Bytes → Decoded
  invalid : Decoded
  no_fuel : Decoded

-- the loop `while (*src)`, each round of which reads at least one character
unfoldable pub decode_from : ℕ → ℕ → Bytes → Bytes → Decoded
unfolding read_group put_group
decode_from dst_len fuel [] out = text out
decode_from dst_len zero (c ∷ src) out = no_fuel
decode_from dst_len (suc fuel) (c ∷ src) out = elim (read_group 4 0 (c ∷ src)) [
  | none ↦ invalid
  | some (bits, pad, rest) ↦ decode_from dst_len fuel rest (put_group dst_len bits pad out)
]

unfoldable pub b64_decode : Bytes → ℕ → Decoded
unfolding decode_from
b64_decode src dst_len = decode_from dst_len (length src) src []

-- `while (*b64 == ' ') b64++`
unfoldable pub skip_spaces : Bytes → Bytes
skip_spaces [] = []
skip_spaces (c ∷ s) = if c == b' ' then skip_spaces s else c ∷ s

-- `p && *p`
unfoldable pub is_set : Option Bytes → Bool
is_set none = false
is_set (some []) = false
is_set (some (c ∷ s)) = true

-- `p ? p : ""`
unfoldable pub or_empty : Option Bytes → Bytes
or_empty none = []
or_empty (some s) = s

-- the comparison after the decoding
unfoldable pub credentials_match : Bytes → Bytes → Bytes → Bool
credentials_match want_user want_pass decoded = elim (split_at_byte b':' (c_str decoded)) [
  | none ↦ false
  | some (got_user, got_pass) ↦ str_eq got_user want_user && str_eq got_pass want_pass
]

-- `req->auth` is an array, so its address is never NULL and the test `!hdr` never holds.
unfoldable pub auth_check : Bytes → Option Bytes → Option Bytes → Bool
auth_check hdr expected_user expected_pass =
    if not (is_set expected_user) && not (is_set expected_pass)
    then true
    else if not (starts_with_nocase (codes "Basic ") hdr)
    then false
    else elim (b64_decode (skip_spaces (drop 6 hdr)) 512) [
      | text decoded ↦ credentials_match (or_empty expected_user) (or_empty expected_pass) decoded
      | invalid ↦ false
      | no_fuel ↦ false
    ]
