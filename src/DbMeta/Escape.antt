-- ===== src/DbMeta/Escape.antt =====
-- The JSON escaping of src/databases_meta.c against the whole of the escapes and against a reader of
-- JSON strings.
use local_marks.Prelude.{
  ℕ, ◌+◌, ◌*◌, ◌≤◌, ◌<◌, ◌≡◌, inl, inr, Bool, true, false, Option, none, some, [], ◌∷◌, ◌++◌,
  append-nil, append_assoc, ltb, leb, if◌then◌else◌, length, arith, length-append, Bool-cases,
}
use local_marks.Prelude.Bytes.{Bytes, padded}
use local_marks.DbMeta.{short_escape, escape_byte, escape_from, json_escape_string}

-- the escapes of all bytes
abbrev pub escape_all : Bytes → Bytes
escape_all [] = []
escape_all (c ∷ src) = escape_byte c ++ escape_all src

pub length-escape_byte : (c : ℕ) → 1 ≤ length (escape_byte c)
unfolding escape_byte
length-escape_byte c = go (short_escape c) (ltb c 32)
  where
    go :
        (o : Option ℕ) (control : Bool)
        → 1
          ≤ length {A = ℕ} (elim o [
            | some e ↦ 92 ∷ e ∷ []
            | none ↦ if control then 92 ∷ b'u' ∷ padded 16 4 c else c ∷ []
          ])
    go (some e) control = omega arith
    go none true = omega arith
    go none false = omega arith

escape_from-all :
    (dst_size : ℕ) (dst src : Bytes)
    → escape_from dst_size dst src ≡ (
        if ltb (length dst + length (escape_all src)) dst_size
        then some (dst ++ escape_all src)
        else none)
unfolding escape_from
escape_from-all dst_size dst [] = rw (append-nil dst) (ground arith)
escape_from-all dst_size dst (c ∷ src) =
    let ih = escape_from-all dst_size (dst ++ escape_byte c) src in
    elim (Bool-cases (leb dst_size (length dst + length (escape_byte c)))) [
      | inl full ↦ rw full (ground (arith, length-append {0} (escape_byte c) (escape_all src)))
      | inr room ↦
          rw (room, ih)
            (rw
              (
                length-append dst (escape_byte c),
                length-append (escape_byte c) (escape_all src),
                append_assoc dst (escape_byte c) (escape_all src),
              )
              (ground arith))
    ]

-- `json_escape_string` stores the escapes of all bytes in order, if they leave room for the NUL, and
-- fails otherwise.
pub json_escape_string-all :
    (dst_size : ℕ) (src : Bytes)
    → json_escape_string dst_size src
      ≡ (if ltb (length (escape_all src)) dst_size then some (escape_all src) else none)
unfolding json_escape_string
json_escape_string-all dst_size src = ground (arith, escape_from-all dst_size [] src)

-- no byte below 32
abbrev pub HasNoControl : Bytes → Type 0
HasNoControl [] = Unit {0}
HasNoControl (c ∷ src) = (32 ≤ c) × HasNoControl src

length-escape_printable : (c : ℕ) → 32 ≤ c → length (escape_byte c) ≤ 2
unfolding escape_byte
length-escape_printable c h = go (short_escape c)
  where
    go :
        (o : Option ℕ)
        → length {A = ℕ} (elim o [
          | some e ↦ 92 ∷ e ∷ []
          | none ↦ if ltb c 32 then 92 ∷ b'u' ∷ padded 16 4 c else c ∷ []
        ])
          ≤ 2
    go (some e) = omega arith
    go none = ground arith

length-escape_all : (src : Bytes) → HasNoControl src → length (escape_all src) ≤ 2 * length src
length-escape_all [] h = omega arith
length-escape_all (c ∷ src) h = omega (
  arith,
  length-append {0} (escape_byte c) (escape_all src),
  length-escape_printable c h.0,
  length-escape_all src h.1,
)

-- A buffer of more than twice the length is enough for a text without control characters.
pub json_escape_string-fits :
    (dst_size : ℕ) (src : Bytes)
    → HasNoControl src
    → 2 * length src < dst_size
    → json_escape_string dst_size src ≡ some (escape_all src)
json_escape_string-fits dst_size src h room =
    ground (arith, json_escape_string-all dst_size src, length-escape_all src h)
