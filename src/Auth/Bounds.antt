-- ===== src/Auth/Bounds.antt =====
-- The decoder of src/auth.c ends and keeps inside its buffer.
use local_marks.Prelude.{
  ℕ, zero, suc, ◌+◌, ◌*◌, ◌/◌, ◌%◌, ◌^◌, ◌≤◌, ◌<◌, ◌≡◌, inl, inr, refl, Option, none, some, [], ◌∷◌,
  min, length, arith, length-append, Option-cases,
}
use local_marks.Prelude.Bytes.{Bytes}
use local_marks.Auth.{
  b64_char, skip_padding, read_group, put_byte, put_group, Decoded, text, invalid, no_fuel,
  decode_from, b64_decode,
}

length-skip_padding :
    (left : ℕ) (src : Bytes) (pad : ℕ) → length (skip_padding left src pad).0 ≤ length src
unfolding skip_padding
length-skip_padding zero src pad = omega arith
length-skip_padding (suc left) [] pad = omega arith
length-skip_padding (suc left) (c ∷ src) pad =
    ground (arith, length-skip_padding left src (pad + 1), length-skip_padding left (c ∷ src) pad)

-- a group takes characters off the source
length-read_group :
    (left bits : ℕ) (src : Bytes) {bits' pad : ℕ} {rest : Bytes}
    → read_group left bits src ≡ some (bits', pad, rest)
    → length rest + min left 1 ≤ length src
unfolding read_group
length-read_group zero bits src e = ground arith
length-read_group (suc left) bits [] e = ground arith
length-read_group (suc left) bits (c ∷ src) {bits'} {pad} {rest} e =
    elim (Option-cases (b64_char c)) [
      | inl bad ↦ ground (arith, length-skip_padding left src 1)
      | inr (n, good) ↦ ground (
        arith,
        length-skip_padding left src 1,
        length-read_group left (bits * 64 + n) src {bits' = bits'} {pad = pad} {rest = rest},
      )
    ]

length-put_byte : (n : ℕ) (out : Bytes) (b : ℕ) → length out < n → length (put_byte n out b) < n
unfolding put_byte
length-put_byte n out b h = ground (arith, length-append {0} out (b ∷ []))

length-put_group :
    (n bits pad : ℕ) (out : Bytes) → length out < n → length (put_group n bits pad out) < n
unfolding put_group
length-put_group n bits pad out h =
    let one = length-put_byte n out (bits / 2 ^ 16 % 256) h in
    let two = length-put_byte n (put_byte n out (bits / 2 ^ 16 % 256)) (bits / 2 ^ 8 % 256) one in
    ground (
      arith,
      length-put_byte n (put_byte n out (bits / 2 ^ 16 % 256)) (bits % 256) one,
      length-put_byte n (put_byte n (put_byte n out (bits / 2 ^ 16 % 256)) (bits / 2 ^ 8 % 256))
          (bits % 256) two,
    )

-- the end of a decoding: with a NUL it fits the buffer
abbrev pub Fits : ℕ → Decoded → Type 0
Fits n (text out) = length out < n
Fits n invalid = Unit {0}
Fits n no_fuel = ⊥

decode_from-Fits :
    (n fuel : ℕ) (src out : Bytes)
    → length src ≤ fuel
    → length out < n
    → Fits n (decode_from n fuel src out)
unfolding decode_from
decode_from-Fits n fuel [] out enough room = room
decode_from-Fits n zero (c ∷ src) out enough room = absurd (omega arith)
decode_from-Fits n (suc fuel) (c ∷ src) out enough room =
    go (read_group 4 0 (c ∷ src)) refl (λ rest bits pad le.
      decode_from-Fits n fuel rest (put_group n bits pad out) (omega arith)
        (length-put_group n bits pad out room))
  where
    go :
        (g : Option (ℕ × ℕ × Bytes))
        → read_group 4 0 (c ∷ src) ≡ g
        → ((rest : Bytes) (bits pad : ℕ)
            → length rest ≤ length src
            → Fits n (decode_from n fuel rest (put_group n bits pad out)))
        → Fits n (elim g [
          | none ↦ invalid
          | some (bits, pad, rest) ↦ decode_from n fuel rest (put_group n bits pad out)
        ])
    go none e ih = tt
    go (some (bits, pad, rest)) e ih =
        ih rest bits pad (omega (arith, length-read_group 4 0 (c ∷ src) e))

-- `b64_decode` ends, whatever the source, and what it decodes fits the buffer with its NUL.
pub decode-Fits : (src : Bytes) (dst_len : ℕ) → 0 < dst_len → Fits dst_len (b64_decode src dst_len)
unfolding b64_decode
decode-Fits src dst_len h = decode_from-Fits dst_len (length src) src [] (omega arith) h
