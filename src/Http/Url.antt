-- ===== src/Http/Url.antt =====
-- `http_url_decode` of src/http.c.
use local_marks.Prelude.{
  ℕ, zero, suc, ◌+◌, ◌-◌, ◌*◌, ◌/◌, ◌%◌, ◌≤◌, ◌<◌, ◌≡◌, refl, ◌&&◌, Option, none, some, [], ◌∷◌,
  ltb, leb, ◌==◌, if◌then◌else◌, length, arith, All,
}
use local_marks.Prelude.Bytes.{Bytes}

-- `isxdigit`, with the digit's value
unfoldable pub hex_value : ℕ → Option ℕ
hex_value c =
    if leb b'0' c && leb c b'9'
    then some (c - 48)
    else if leb b'a' c && leb c b'f'
    then some (c - 97 + 10)
    else if leb b'A' c && leb c b'F'
    then some (c - 65 + 10)
    else none

-- a percent sign and two hexadecimal digits: the byte that they stand for, and what follows
unfoldable pub percent_escape : ℕ → Bytes → Option (ℕ × Bytes)
percent_escape c [] = none
percent_escape c (h ∷ []) = none
percent_escape c (h ∷ l ∷ rest) =
    if c == b'%'
    then elim (hex_value h) [
      | none ↦ none
      | some x ↦ elim (hex_value l) [ none ↦ none | some y ↦ some (x * 16 + y, rest) ]
    ]
    else none

-- the loop, with the room that `di + 1 < dst_size` leaves
unfoldable pub url_decode_from : ℕ → Bytes → Bytes
url_decode_from zero src = []
url_decode_from (suc room) [] = []
url_decode_from (suc room) (c ∷ src) = elim (percent_escape c src) [
  | some (byte, rest) ↦ byte ∷ url_decode_from room rest
  | none ↦ (if c == b'+' then b' ' else c) ∷ url_decode_from room src
]

-- the bytes written before the final NUL
unfoldable pub http_url_decode : ℕ → Bytes → Bytes
unfolding url_decode_from
http_url_decode dst_size src = url_decode_from (dst_size - 1) src

length-url_decode_from : (room : ℕ) (src : Bytes) → length (url_decode_from room src) ≤ room
unfolding url_decode_from
length-url_decode_from zero src = omega arith
length-url_decode_from (suc room) [] = omega arith
length-url_decode_from (suc room) (c ∷ src) =
    go (percent_escape c src) (λ rest. length-url_decode_from room rest)
  where
    go :
        (o : Option (ℕ × Bytes))
        → ((rest : Bytes) → length (url_decode_from room rest) ≤ room)
        → length {A = ℕ} (elim o [
          | some (byte, rest) ↦ byte ∷ url_decode_from room rest
          | none ↦ (if c == b'+' then b' ' else c) ∷ url_decode_from room src
        ])
          ≤ suc room
    go none ih = omega (arith, ih src)
    go (some (byte, rest)) ih = omega (arith, ih rest)

-- The decoded text and its NUL never pass the end of the buffer.
pub length-url_decode :
    (dst_size : ℕ) (src : Bytes) → 0 < dst_size → length (http_url_decode dst_size src) < dst_size
unfolding http_url_decode
length-url_decode dst_size src h = omega (arith, length-url_decode_from (dst_size - 1) src)

-- the upper-case hexadecimal digit of a number below 16
unfoldable pub hex_digit : ℕ → ℕ
hex_digit d = if ltb d 10 then d + 48 else d - 10 + 65

-- the percent-encoding of every byte
unfoldable pub url_encode : Bytes → Bytes
unfolding hex_digit
url_encode [] = []
url_encode (c ∷ s) = b'%' ∷ hex_digit (c / 16) ∷ hex_digit (c % 16) ∷ url_encode s

hex_value-digit : (d : ℕ) → d < 16 → hex_value (hex_digit d) ≡ some d
unfolding hex_value hex_digit
hex_value-digit d h = ground arith

percent_escape-digits :
    (c : ℕ) (s : Bytes)
    → c < 256
    → percent_escape b'%' (hex_digit (c / 16) ∷ hex_digit (c % 16) ∷ s) ≡ some (c, s)
unfolding percent_escape
percent_escape-digits c s h = ground (arith, hex_value-digit (c / 16), hex_value-digit (c % 16))

url_decode_from-encode :
    (room : ℕ) (s : Bytes)
    → All (λ (c : ℕ). c < 256) s
    → length s ≤ room
    → url_decode_from room (url_encode s) ≡ s
unfolding url_decode_from url_encode
url_decode_from-encode zero [] ok fits = refl
url_decode_from-encode zero (c ∷ s) ok fits = absurd (omega arith)
url_decode_from-encode (suc room) [] ok fits = refl
url_decode_from-encode (suc room) (c ∷ s) ok fits =
    let hc : c < 256 = ok.0 in
    ground (arith, percent_escape-digits c (url_encode s), url_decode_from-encode room s ok.1)

-- Decoding undoes the percent-encoding of every byte string that fits the buffer with its NUL.
pub url_decode-encode :
    (dst_size : ℕ) (s : Bytes)
    → All (λ (c : ℕ). c < 256) s
    → length s < dst_size
    → http_url_decode dst_size (url_encode s) ≡ s
unfolding http_url_decode
url_decode-encode dst_size s ok fits = url_decode_from-encode (dst_size - 1) s ok (omega arith)
