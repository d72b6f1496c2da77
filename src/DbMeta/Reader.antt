-- ===== src/DbMeta/Reader.antt =====
-- A reader of JSON strings gets back what src/databases_meta.c has escaped.
use local_marks.Prelude.{
  ℕ, zero, suc, ◌+◌, ◌-◌, ◌*◌, ◌/◌, ◌%◌, ◌≤◌, ◌<◌, ◌≡◌, ◌≢◌, inl, inr, refl, sym, Bool, true, ◌&&◌,
  ◌||◌, Option, none, some, [], ◌∷◌, ◌++◌, ltb, leb, ◌==◌, if◌then◌else◌, length, arith,
  length-append, Option-cases, Bool-cases,
}
use mathlib.Core.Path.{subst}
use local_marks.Prelude.Bytes.{Bytes, str_eq, str_eq_of, padded, to_base, to_base_from, digit_char}
use local_marks.DbMeta.{short_escape, escape_byte, json_escape_string}
use local_marks.DbMeta.Escape.{escape_all, length-escape_byte, json_escape_string-all}

-- A reader of JSON strings, by the grammar of RFC 8259; the escape behind a backslash first.
unfoldable pub read_letter : ℕ → Option ℕ
read_letter l =
    if l == b'"'
    then some b'"'
    else if l == 92
    then some 92
    else if l == b'/'
    then some b'/'
    else if l == b'b'
    then some 8
    else if l == b'f'
    then some 12
    else if l == b'n'
    then some 10
    else if l == b'r'
    then some 13
    else if l == b't'
    then some 9
    else none

unfoldable pub hex_value : ℕ → ℕ
hex_value d = if leb b'a' d then d - b'a' + 10 else d - b'0'

unfoldable pub read_escape : Bytes → Option (ℕ × Bytes)
read_escape [] = none
read_escape (l ∷ s) =
    if l == b'u'
    then elim s [
      | a ∷ b ∷ c ∷ d ∷ rest ↦
          some (((hex_value a * 16 + hex_value b) * 16 + hex_value c) * 16 + hex_value d, rest)
      | short ↦ none
    ]
    else elim (read_letter l) [ none ↦ none | some c ↦ some (c, s) ]

-- one character
unfoldable pub read_char : Bytes → Option (ℕ × Bytes)
read_char [] = none
read_char (c ∷ s) =
    if c == 92 then read_escape s else if ltb c 32 || c == b'"' then none else some (c, s)

-- the whole, with fuel for the characters
unfoldable pub json_read : ℕ → Bytes → Option Bytes
json_read fuel [] = some []
json_read zero (c ∷ s) = none
json_read (suc fuel) (c ∷ s) = elim (read_char (c ∷ s)) [
  | none ↦ none
  | some (x, rest) ↦ elim (json_read fuel rest) [ none ↦ none | some xs ↦ some (x ∷ xs) ]
]

-- a test that holds of all numbers below n
abbrev holds_below : (ℕ → Bool) → ℕ → Bool
holds_below p zero = true
holds_below p (suc n) = p n && holds_below p n

holds_below-at : (p : ℕ → Bool) (n i : ℕ) → holds_below p n ≡ true → i < n → p i ≡ true
holds_below-at p zero i h k = absurd (omega arith)
holds_below-at p (suc n) i h k = elim (Bool-cases (i == n)) [
  | inl same ↦ let e : i ≡ n = ground arith in subst (λ k. p k ≡ true) (sym e) (ground arith)
  | inr other ↦ holds_below-at p n i (ground arith) (ground arith)
]

-- the digits of a control character
abbrev hex4 : ℕ → Bytes
hex4 c =
    b'0'
    ∷ b'0'
    ∷ (c / 16 + b'0')
    ∷ (if ltb (c % 16) 10 then c % 16 + b'0' else c % 16 - 10 + b'a')
    ∷ []

padded-hex4_all : holds_below (λ c. str_eq (padded 16 4 c) (hex4 c)) 32 ≡ true
unfolding padded str_eq to_base to_base_from digit_char
padded-hex4_all = refl

padded-hex4 : (c : ℕ) → c < 32 → padded 16 4 c ≡ hex4 c
padded-hex4 c h =
    str_eq_of (padded 16 4 c) (hex4 c)
      (holds_below-at (λ c. str_eq (padded 16 4 c) (hex4 c)) 32 c padded-hex4_all h)

hex_digits :
    (c : ℕ)
    → c < 32
    → hex_value (c / 16 + 48) * 16
        + hex_value (if ltb (c % 16) 10 then c % 16 + 48 else c % 16 - 10 + 97)
      ≡ c
unfolding hex_value
hex_digits c h = ground arith

-- what `read_char` reads back
read_char-control : (c : ℕ) (s : Bytes) → c < 32 → read_char (92 ∷ b'u' ∷ hex4 c ++ s) ≡ some (c, s)
unfolding read_char read_escape hex_value
read_char-control c s h = ground (arith, hex_digits c h)

read_letter-short : (c e : ℕ) → short_escape c ≡ some e → (read_letter e ≡ some c) × (e ≢ b'u')
unfolding read_letter short_escape
read_letter-short c e h = ground arith

read_char-short :
    (c e : ℕ) (s : Bytes) → short_escape c ≡ some e → read_char (92 ∷ e ∷ s) ≡ some (c, s)
unfolding read_char read_escape
read_char-short c e s h = ground (arith, read_letter-short c e h)

read_char-plain :
    (c : ℕ) (s : Bytes) → short_escape c ≡ none → 32 ≤ c → read_char (c ∷ s) ≡ some (c, s)
unfolding read_char short_escape
read_char-plain c s h k = ground arith

escape_byte-short : (c e : ℕ) → short_escape c ≡ some e → escape_byte c ≡ 92 ∷ e ∷ []
unfolding escape_byte
escape_byte-short c e h = ground (arith, h)

escape_byte-plain :
    (c : ℕ)
    → short_escape c ≡ none
    → escape_byte c ≡ (if ltb c 32 then 92 ∷ b'u' ∷ padded 16 4 c else c ∷ [])
unfolding escape_byte
escape_byte-plain c h = ground (arith, h)

read_char-escape_byte : (c : ℕ) (s : Bytes) → read_char (escape_byte c ++ s) ≡ some (c, s)
read_char-escape_byte c s = elim (Option-cases (short_escape c)) [
  | inl plain ↦ elim (Bool-cases (ltb c 32)) [
    | inl control ↦
        rw (escape_byte-plain c plain, control, padded-hex4 c (ground arith))
          (read_char-control c s (ground arith))
    | inr printable ↦
        rw (escape_byte-plain c plain, printable) (read_char-plain c s plain (ground arith))
  ]
  | inr (e, short) ↦ rw (escape_byte-short c e short) (read_char-short c e s short)
]

json_read-escape_all :
    (fuel : ℕ) (src : Bytes) → length src ≤ fuel → json_read fuel (escape_all src) ≡ some src
unfolding json_read
json_read-escape_all fuel [] h = refl
json_read-escape_all zero (c ∷ src) h = absurd (omega arith)
json_read-escape_all (suc fuel) (c ∷ src) h =
    go (escape_byte c) (length-escape_byte c) (read_char-escape_byte c (escape_all src))
      (json_read-escape_all fuel src (omega arith))
  where
    go :
        (e : Bytes)
        → 1 ≤ length e
        → read_char (e ++ escape_all src) ≡ some (c, escape_all src)
        → json_read fuel (escape_all src) ≡ some src
        → json_read (suc fuel) (e ++ escape_all src) ≡ some (c ∷ src)
    go [] h k ih = absurd (omega arith)
    go (x ∷ e) h k ih = ground (arith, k, ih)

length-le-escape_all : (src : Bytes) → length src ≤ length (escape_all src)
length-le-escape_all [] = omega arith
length-le-escape_all (c ∷ src) = omega (
  arith,
  length-append {0} (escape_byte c) (escape_all src),
  length-escape_byte c,
  length-le-escape_all src,
)

-- A reader of JSON strings gets back from a stored text exactly the bytes that were escaped, whatever
-- they are; so no quote or control character of the source is left bare.
pub json_read-json_escape_string :
    (dst_size : ℕ) (src : Bytes) {dst : Bytes}
    → json_escape_string dst_size src ≡ some dst
    → json_read (length dst) dst ≡ some src
json_read-json_escape_string dst_size src {dst} h =
    let e : dst ≡ escape_all src = ground (arith, json_escape_string-all dst_size src) in
    subst (λ d. json_read (length d) d ≡ some src) (sym e)
      (json_read-escape_all (length (escape_all src)) src (length-le-escape_all src))
