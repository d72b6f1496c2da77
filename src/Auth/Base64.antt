-- ===== src/Auth/Base64.antt =====
-- The decoder of src/auth.c against the encoding of RFC 4648.
use local_marks.Prelude.{
  ℕ, zero, suc, ◌+◌, ◌-◌, ◌*◌, ◌/◌, ◌%◌, ◌^◌, ◌≤◌, ◌<◌, ◌≡◌, ◌≢◌, some, [], ◌∷◌, ◌++◌, append-nil,
  append_assoc, ltb, ◌==◌, if◌then◌else◌, length, arith, All, length-append,
}
use local_marks.Prelude.Bytes.{Bytes}
use local_marks.Auth.{
  b64_char, skip_padding, read_group, put_byte, put_group, text, decode_from, b64_decode,
}

-- the Base64 alphabet
unfoldable pub b64_digit : ℕ → ℕ
b64_digit v =
    if ltb v 26
    then v + 65
    else if ltb v 52
    then v - 26 + 97
    else if ltb v 62
    then v - 52 + 48
    else if v == 62
    then b'+'
    else b'/'

-- the standard encoding, with padding
unfoldable pub b64_encode : Bytes → Bytes
unfolding b64_digit
b64_encode [] = []
b64_encode (a ∷ []) = b64_digit (a / 4) ∷ b64_digit (a % 4 * 16) ∷ b'=' ∷ b'=' ∷ []
b64_encode (a ∷ b ∷ []) =
    b64_digit (a / 4) ∷ b64_digit (a % 4 * 16 + b / 16) ∷ b64_digit (b % 16 * 4) ∷ b'=' ∷ []
b64_encode (a ∷ b ∷ c ∷ s) =
    b64_digit (a / 4)
    ∷ b64_digit (a % 4 * 16 + b / 16)
    ∷ b64_digit (b % 16 * 4 + c / 64)
    ∷ b64_digit (c % 64)
    ∷ b64_encode s

abbrev pub IsByte : ℕ → Type 0
IsByte c = c < 256

b64_char-digit : (v : ℕ) → v < 64 → (b64_char (b64_digit v) ≡ some v) × (b64_digit v ≢ b'=')
unfolding b64_char b64_digit
b64_char-digit v h = (ground arith, λ e. ground arith)

-- a group of four digits
read_group_four :
    (v w x y : ℕ) (s : Bytes)
    → v < 64
    → w < 64
    → x < 64
    → y < 64
    → read_group 4 0 (b64_digit v ∷ b64_digit w ∷ b64_digit x ∷ b64_digit y ∷ s)
      ≡ some (((v * 64 + w) * 64 + x) * 64 + y, 0, s)
unfolding read_group
read_group_four v w x y s hv hw hx hy =
    ground (arith, b64_char-digit v, b64_char-digit w, b64_char-digit x, b64_char-digit y)

read_group_three :
    (v w x : ℕ)
    → v < 64
    → w < 64
    → x < 64
    → read_group 4 0 (b64_digit v ∷ b64_digit w ∷ b64_digit x ∷ b'=' ∷ [])
      ≡ some (((v * 64 + w) * 64 + x) * 64, 1, [])
unfolding read_group skip_padding
read_group_three v w x hv hw hx =
    ground (arith, b64_char-digit v, b64_char-digit w, b64_char-digit x)

read_group_two :
    (v w : ℕ)
    → v < 64
    → w < 64
    → read_group 4 0 (b64_digit v ∷ b64_digit w ∷ b'=' ∷ b'=' ∷ [])
      ≡ some ((v * 64 + w) * 4096, 2, [])
unfolding read_group skip_padding
read_group_two v w hv hw = ground (arith, b64_char-digit v, b64_char-digit w)

put_byte-room :
    (dst_len : ℕ) (out : Bytes) (b : ℕ)
    → length out + 1 < dst_len
    → put_byte dst_len out b ≡ out ++ b ∷ []
unfolding put_byte
put_byte-room dst_len out b h = ground arith

put_group_three :
    (dst_len : ℕ) (out : Bytes) (a b c bits : ℕ)
    → bits / 2 ^ 16 % 256 ≡ a
    → bits / 2 ^ 8 % 256 ≡ b
    → bits % 256 ≡ c
    → length out + 3 < dst_len
    → put_group dst_len bits 0 out ≡ out ++ a ∷ b ∷ c ∷ []
unfolding put_group
put_group_three dst_len out a b c bits ea eb ec h = simp (
  put_byte-room dst_len out a (omega arith),
  ea,
  put_byte-room dst_len (out ++ a ∷ []) b (omega (arith, length-append {0} out (a ∷ []))),
  eb,
  put_byte-room dst_len (out ++ a ∷ b ∷ []) c (omega (arith, length-append {0} out (a ∷ b ∷ []))),
  ec,
  append_assoc,
)

put_group_two :
    (dst_len : ℕ) (out : Bytes) (a b bits : ℕ)
    → bits / 2 ^ 16 % 256 ≡ a
    → bits / 2 ^ 8 % 256 ≡ b
    → length out + 2 < dst_len
    → put_group dst_len bits 1 out ≡ out ++ a ∷ b ∷ []
unfolding put_group
put_group_two dst_len out a b bits ea eb h = simp (
  put_byte-room dst_len out a (omega arith),
  ea,
  put_byte-room dst_len (out ++ a ∷ []) b (omega (arith, length-append {0} out (a ∷ []))),
  eb,
  append_assoc,
)

put_group_one :
    (dst_len : ℕ) (out : Bytes) (a bits : ℕ)
    → bits / 2 ^ 16 % 256 ≡ a
    → length out + 1 < dst_len
    → put_group dst_len bits 2 out ≡ out ++ a ∷ []
unfolding put_group
put_group_one dst_len out a bits ea h = simp (put_byte-room dst_len out a h, ea)

decode_from-encode :
    (dst_len fuel : ℕ) (s out : Bytes)
    → All IsByte s
    → length out + length s < dst_len
    → length s ≤ fuel
    → decode_from dst_len fuel (b64_encode s) out ≡ text (out ++ s)
unfolding decode_from b64_encode
decode_from-encode dst_len fuel [] out ok fits enough = rw (append-nil out)
decode_from-encode dst_len zero (a ∷ s) out ok fits enough = absurd (omega arith)
decode_from-encode dst_len (suc fuel) (a ∷ []) out ok fits enough =
    let ha : a < 256 = ok.0 in
    ground (
      arith,
      read_group_two (a / 4) (a % 4 * 16) (omega arith) (omega arith),
      put_group_one dst_len out a ((a / 4 * 64 + a % 4 * 16) * 4096) (omega arith) (omega arith),
    )
decode_from-encode dst_len (suc fuel) (a ∷ b ∷ []) out ok fits enough =
    let ha : a < 256 = ok.0 in
    let hb : b < 256 = ok.1.0 in
    ground (
      arith,
      read_group_three (a / 4) (a % 4 * 16 + b / 16) (b % 16 * 4) (omega arith) (omega arith)
          (omega arith),
      put_group_two dst_len out a b (((a / 4 * 64 + (a % 4 * 16 + b / 16)) * 64 + b % 16 * 4) * 64)
          (omega arith) (omega arith) (omega arith),
    )
decode_from-encode dst_len (suc fuel) (a ∷ b ∷ c ∷ s) out ok fits enough =
    let ha : a < 256 = ok.0 in
    let hb : b < 256 = ok.1.0 in
    let hc : c < 256 = ok.1.1.0 in
    ground (
      arith,
      read_group_four (a / 4) (a % 4 * 16 + b / 16) (b % 16 * 4 + c / 64) (c % 64) (b64_encode s)
          (omega arith) (omega arith) (omega arith) (omega arith),
      put_group_three dst_len out a b c
          (((a / 4 * 64 + (a % 4 * 16 + b / 16)) * 64 + (b % 16 * 4 + c / 64)) * 64 + c % 64)
          (omega arith) (omega arith) (omega arith) (omega arith),
      decode_from-encode dst_len fuel s (out ++ a ∷ b ∷ c ∷ []) ok.1.1.1
          (omega (arith, length-append {0} out (a ∷ b ∷ c ∷ []))) (omega arith),
      append_assoc out (a ∷ b ∷ c ∷ []) s,
    )

length-encode-ge : (s : Bytes) → length s ≤ length (b64_encode s)
unfolding b64_encode
length-encode-ge [] = omega arith
length-encode-ge (a ∷ []) = omega arith
length-encode-ge (a ∷ b ∷ []) = omega arith
length-encode-ge (a ∷ b ∷ c ∷ s) = omega (arith, length-encode-ge s)

-- `b64_decode` undoes the Base64 encoding of every byte string that fits the buffer with its NUL.
pub decode-encode :
    (dst_len : ℕ) (s : Bytes)
    → All IsByte s
    → length s < dst_len
    → b64_decode (b64_encode s) dst_len ≡ text s
unfolding b64_decode
decode-encode dst_len s ok fits =
    decode_from-encode dst_len (length (b64_encode s)) s [] ok (omega arith) (length-encode-ge s)
