-- ===== src/File/Range.antt =====
-- The ranges of src/file.c against a reading of the request on natural numbers.
use local_marks.Prelude.{
  ℕ, zero, suc, ◌+◌, ◌-◌, ◌≤◌, ◌<◌, ◌≡◌, inl, inr, refl, sym, ap, Bool, true, false, ◌&&◌, min, ltb,
  leb, if◌then◌else◌, length, arith, length-drop, Bool-cases,
}
use mathlib.Core.Path.{subst}
use local_marks.Prelude.Int.{ℤ, pos, negsuc, ◌+ℤ◌, ltb_ℤ}
use local_marks.Prelude.Bytes.{Bytes}
use local_marks.File.{
  Slice, whole, part, unsatisfiable, clamp_range, is_minus_one, range_slice, file_body,
}

-- the bytes from `first` on, up to `last` at most
abbrev pub from_to : ℕ → ℕ → ℕ → Slice
from_to len first last =
    if ltb first len && leb first last
    then part (pos first) (pos (min last (len - 1)))
    else unsatisfiable

-- a Range header: none, "bytes=a-", "bytes=a-b", or "bytes=-n" for the last n bytes
pub data Range : Type 0 where
  no_range : Range
  from : ℕ → Range
  between : ℕ → ℕ → Range
  last_bytes : ℕ → Range

-- the bytes that it asks for
abbrev pub asked : ℕ → Range → Slice
asked len no_range = whole
asked len (from first) = from_to len first (len - 1)
asked len (between first last) = from_to len first last
asked len (last_bytes n) = from_to len (len - n) (len - 1)

-- the two numbers that the header parser stores for it
abbrev pub stored : Range → ℤ × ℤ
stored no_range = (negsuc 0, negsuc 0)
stored (from first) = (pos first, negsuc 0)
stored (between first last) = (pos first, pos last)
stored (last_bytes zero) = (pos 0, negsuc 0)
stored (last_bytes (suc n)) = (negsuc n, negsuc 0)

-- Not the last 0 bytes, which are stored as all from 0, nor the last one, which is stored as no range.
abbrev pub IsDistinct : Range → Type 0
IsDistinct (last_bytes n) = 1 < n
IsDistinct other = Unit {0}

-- the slice that a pair of numbers stands for in the code
abbrev slice_of : ℕ → ℤ → ℤ → Slice
slice_of len (negsuc zero) range_end = whole
slice_of len (negsuc (suc n)) range_end = from_to len (len - (n + 2)) (len - 1)
slice_of len (pos first) (negsuc n) = from_to len first (len - 1)
slice_of len (pos first) (pos last) = from_to len first last

clamp_range-pos :
    (len first last : ℕ) → clamp_range len (pos first) (pos last) ≡ from_to len first last
unfolding clamp_range ◌+ℤ◌
clamp_range-pos zero first last = ground arith
clamp_range-pos (suc len) first last = ground arith

clamp_range-end :
    (len first : ℕ)
    → clamp_range len (pos first) (pos len +ℤ negsuc 0) ≡ from_to len first (len - 1)
unfolding clamp_range ◌+ℤ◌
clamp_range-end zero first = ground arith
clamp_range-end (suc len) first = ground arith

-- the start of a suffix, clamped
suffix_first :
    (len n : ℕ)
    → (if ltb_ℤ (pos len +ℤ negsuc (suc n)) (pos 0) then pos 0 else pos len +ℤ negsuc (suc n))
      ≡ pos (len - (n + 2))
unfolding ◌+ℤ◌
suffix_first len n = ground arith

-- for every pair of numbers, those of a malformed header too
range_slice-slice_of :
    (len : ℕ) (range_start range_end : ℤ)
    → range_slice len range_start range_end ≡ slice_of len range_start range_end
unfolding range_slice is_minus_one
range_slice-slice_of len (negsuc zero) range_end = refl
range_slice-slice_of len (negsuc (suc n)) range_end =
    rw (suffix_first len n) (ground (arith, clamp_range-end len (len - (n + 2))))
range_slice-slice_of len (pos first) (negsuc n) = ground (arith, clamp_range-end len first)
range_slice-slice_of len (pos first) (pos last) = ground (arith, clamp_range-pos len first last)

pub slice_of_stored :
    (len : ℕ) (range : Range)
    → IsDistinct range
    → slice_of len (stored range).0 (stored range).1 ≡ asked len range
slice_of_stored len no_range d = refl
slice_of_stored len (from first) d = refl
slice_of_stored len (between first last) d = refl
slice_of_stored len (last_bytes zero) d = absurd (omega arith)
slice_of_stored len (last_bytes (suc zero)) d = absurd (omega arith)
slice_of_stored len (last_bytes (suc (suc n))) d =
    ap (λ k. from_to len (len - k) (len - 1)) (omega arith)

is_part : Slice → Bool
is_part whole = false
is_part (part first last) = true
is_part unsatisfiable = false

-- what `file_body` is given in bounds: the first byte, and that the last one is in the file
abbrev pub InFile : ℕ → Slice → Type 0
InFile len whole = Unit {0}
InFile len unsatisfiable = Unit {0}
InFile len (part first last) = (a b : ℕ) × (first ≡ pos a) × (last ≡ pos b) × (a ≤ b) × (b < len)

from_to-InFile : (len first last : ℕ) → InFile len (from_to len first last)
from_to-InFile len first last = elim (Bool-cases (ltb first len && leb first last)) [
  | inl inside ↦ rw inside (first, min last (len - 1), refl, refl, ground arith, ground arith)
  | inr outside ↦ rw outside tt
]

pub range_slice-InFile :
    (len : ℕ) (range_start range_end : ℤ) → InFile len (range_slice len range_start range_end)
range_slice-InFile len range_start range_end =
    subst (InFile len) (sym (range_slice-slice_of len range_start range_end))
      (go range_start range_end)
  where
    go : (a b : ℤ) → InFile len (slice_of len a b)
    go (negsuc zero) b = tt
    go (negsuc (suc n)) b = from_to-InFile len (len - (n + 2)) (len - 1)
    go (pos first) (negsuc n) = from_to-InFile len first (len - 1)
    go (pos first) (pos last) = from_to-InFile len first last

-- the bytes from a to b of a file
pub file_body-length :
    (bytes : Bytes) (a b : ℕ)
    → a ≤ b
    → b < length bytes
    → (file_body bytes (pos a) (pos b)).1 ≤ length (file_body bytes (pos a) (pos b)).0
unfolding file_body ◌+ℤ◌
file_body-length bytes a b h k = ground (arith, length-drop a bytes)
