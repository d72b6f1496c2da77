-- ===== src/Prelude/Bytes.antt =====
-- C strings: the bytes before the terminating NUL, and the <string.h> functions the code calls.
use Prim.Native.Nat.{ℕ, zero, suc, ◌+◌, ◌-◌, ◌/◌, ◌%◌}
use Prim.Native.Char.{code}
use Prim.Native.String.{String}
use mathlib.Core.Path.{◌≡◌, refl, ap}
use mathlib.Core.Logic.{◌↔◌, ◌≢◌}
use mathlib.Core.Bool.{Bool, true, false, ◌&&◌, ◌||◌}
use mathlib.Core.Option.{Option, none, some}
use mathlib.Core.List.{List, [], ◌∷◌, ◌++◌, map}
use native.Mathlib.Omega.{arith}
use package.local_marks.Prelude.Tests.{ltb, leb, ◌==◌, if◌then◌else◌}
use package.local_marks.Prelude.Lists.{length, take, replicate}

abbrev pub Bytes : Type 0
Bytes = List ℕ

-- The bytes of a literal (ASCII).
abbrev pub codes : String → Bytes
codes String.[] = []
codes (String.◌∷◌ c s) = code c ∷ codes s

-- `strcmp(a, b) == 0`
unfoldable pub str_eq : Bytes → Bytes → Bool
str_eq [] [] = true
str_eq [] (y ∷ ys) = false
str_eq (x ∷ xs) [] = false
str_eq (x ∷ xs) (y ∷ ys) = x == y && str_eq xs ys

pub str_eq_of : (a b : Bytes) → str_eq a b ≡ true → a ≡ b
unfolding str_eq
str_eq_of [] [] h = refl
str_eq_of [] (y ∷ ys) h = cc
str_eq_of (x ∷ xs) [] h = cc
str_eq_of (x ∷ xs) (y ∷ ys) h = ground (arith, str_eq_of xs ys)

pub str_eq_refl : (a : Bytes) → str_eq a a ≡ true
unfolding str_eq
str_eq_refl [] = refl
str_eq_refl (x ∷ xs) = ground (arith, str_eq_refl xs)

pub str_eq_congr : (a b c : Bytes) → str_eq a b ≡ true → str_eq a c ≡ str_eq b c
str_eq_congr a b c h = ap (λ s. str_eq s c) (str_eq_of a b h)

pub str_eq_iff : (a b : Bytes) → (str_eq a b ≡ true) ↔ (a ≡ b)
str_eq_iff a b = (str_eq_of a b, λ e. rw e (str_eq_refl b))

-- `strncmp(s, p, strlen(p)) == 0`
unfoldable pub starts_with : Bytes → Bytes → Bool
starts_with [] s = true
starts_with (p ∷ ps) [] = false
starts_with (p ∷ ps) (c ∷ cs) = p == c && starts_with ps cs

-- `tolower` in the "C" locale
unfoldable pub to_lower : ℕ → ℕ
to_lower c = if leb b'A' c && leb c b'Z' then c + 32 else c

-- `strcasecmp(a, b) == 0`
unfoldable pub strcasecmp_eq : Bytes → Bytes → Bool
unfolding str_eq to_lower
strcasecmp_eq a b = str_eq (map to_lower a) (map to_lower b)

-- `strncasecmp(s, p, strlen(p)) == 0`
unfoldable pub starts_with_nocase : Bytes → Bytes → Bool
unfolding starts_with to_lower
starts_with_nocase p s = starts_with (map to_lower p) (map to_lower s)

-- `strchr`: the bytes before the first `c` and those after it, or none if `c` does not occur.
unfoldable pub split_at_byte : ℕ → Bytes → Option (Bytes × Bytes)
split_at_byte c [] = none
split_at_byte c (x ∷ xs) =
    if x == c
    then some ([], xs)
    else elim (split_at_byte c xs) [ none ↦ none | some (a, b) ↦ some (x ∷ a, b) ]

-- `strstr`: the bytes before the first occurrence of `p` and those from it on.
unfoldable pub strstr : Bytes → Bytes → Option (Bytes × Bytes)
unfolding starts_with
strstr p [] = if starts_with p [] then some ([], []) else none
strstr p (x ∷ xs) =
    if starts_with p (x ∷ xs)
    then some ([], x ∷ xs)
    else elim (strstr p xs) [ none ↦ none | some (a, b) ↦ some (x ∷ a, b) ]

-- The digits of a number in a base of at most 16, as `%d`, `%x` and `%o` print them. `fuel` bounds
-- the number of digits; the number itself is enough.
unfoldable pub digit_char : ℕ → ℕ
digit_char d = if ltb d 10 then d + 48 else d - 10 + 97

unfoldable pub to_base_from : ℕ → ℕ → ℕ → Bytes → Bytes
unfolding digit_char
to_base_from zero base n acc = acc
to_base_from (suc fuel) base n acc =
    let rest = to_base_from fuel base (n / base) (digit_char (n % base) ∷ acc) in
    if n == 0 then acc else rest

unfoldable pub to_base : ℕ → ℕ → Bytes
unfolding to_base_from
to_base base n = if n == 0 then b'0' ∷ [] else to_base_from n base n []

-- `%d`, `%zu`, `%ld` of a number that is not negative
unfoldable pub dec : ℕ → Bytes
unfolding to_base
dec n = to_base 10 n

-- `%0<width>x` and `%0<width>o`: the digits, filled up with zeros
unfoldable pub padded : ℕ → ℕ → ℕ → Bytes
unfolding to_base
padded base width n = replicate (width - length (to_base base n)) b'0' ++ to_base base n

-- What a `char[size]` holds as a string after `snprintf(buf, size, "%s", s)`.
abbrev pub snprintf_s : ℕ → Bytes → Bytes
snprintf_s size s = take (size - 1) s

-- What a buffer reads as, as a C string: the bytes before the first NUL.
unfoldable pub c_str : Bytes → Bytes
c_str [] = []
c_str (x ∷ xs) = if x == 0 then [] else x ∷ c_str xs

-- `strrchr`: the bytes from the last `c` on, `c` included.
unfoldable pub strrchr : ℕ → Bytes → Option Bytes
strrchr c [] = none
strrchr c (x ∷ xs) = elim (strrchr c xs) [
  | some r ↦ some r
  | none ↦ if x == c then some (x ∷ xs) else none
]

-- `isspace` in the "C" locale
unfoldable pub is_space : ℕ → Bool
is_space c = c == 32 || leb 9 c && leb c 13

pub split_at_byte-append :
    (c : ℕ) (s : Bytes) {a b : Bytes} → split_at_byte c s ≡ some (a, b) → s ≡ a ++ c ∷ b
unfolding split_at_byte
split_at_byte-append c [] h = cc
split_at_byte-append c (x ∷ xs) {a} {b} h =
    go (split_at_byte c xs) refl (λ a' b' e. split_at_byte-append c xs e)
  where
    go :
        (o : Option (Bytes × Bytes))
        → split_at_byte c xs ≡ o
        → ((a' b' : Bytes) → split_at_byte c xs ≡ some (a', b') → xs ≡ a' ++ c ∷ b')
        → x ∷ xs ≡ a ++ c ∷ b
    go none e ih = ground arith
    go (some (a', b')) e ih = ground (arith, ih a' b')

-- the byte does not occur
abbrev pub HasNo : ℕ → Bytes → Type 0
HasNo c [] = Unit {0}
HasNo c (x ∷ xs) = (x ≢ c) × HasNo c xs

-- `strchr` finds the first occurrence.
pub split_at_byte-first :
    (c : ℕ) (a b : Bytes) → HasNo c a → split_at_byte c (a ++ c ∷ b) ≡ some (a, b)
unfolding split_at_byte
split_at_byte-first c [] b h = ground arith
split_at_byte-first c (x ∷ a) b h = ground (arith, split_at_byte-first c a b h.1)

pub c_str_clean : (s : Bytes) → HasNo 0 s → c_str s ≡ s
unfolding c_str
c_str_clean [] h = refl
c_str_clean (x ∷ s) h = ground (arith, c_str_clean s h.1)

pub HasNo-append : (c : ℕ) (a b : Bytes) → HasNo c a → HasNo c b → HasNo c (a ++ b)
HasNo-append c [] b p q = q
HasNo-append c (x ∷ a) b p q = (p.0, HasNo-append c a b p.1 q)
