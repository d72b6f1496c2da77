-- ===== src/Http/Read.antt =====
-- `read_headers` of src/http.c. The socket is the list of the segments that its reads deliver; an
-- empty segment or the end of the list is the 0 or -1 on which the code gives up.
use local_marks.Prelude.{
  ℕ, zero, suc, ◌+◌, ◌-◌, ◌&&◌, Option, none, some, List, [], ◌∷◌, ◌++◌, min, ltb, leb, ◌==◌,
  if◌then◌else◌, length, take, drop,
}
use local_marks.Prelude.Bytes.{Bytes}

-- `transport_read` of at most `want` bytes; what does not fit is delivered by the next read
unfoldable pub transport_read : ℕ → List Bytes → Option (Bytes × List Bytes)
transport_read want [] = none
transport_read want ([] ∷ segments) = none
transport_read want ((c ∷ s) ∷ segments) =
    if leb (length (c ∷ s)) want
    then some (c ∷ s, segments)
    else some (take want (c ∷ s), drop want (c ∷ s) ∷ segments)

-- the inner loop: the index behind the first CR LF CR LF, counted from `at`
unfoldable pub find_blank_line : ℕ → Bytes → Option ℕ
find_blank_line at [] = none
find_blank_line at (a ∷ []) = none
find_blank_line at (a ∷ b ∷ []) = none
find_blank_line at (a ∷ b ∷ c ∷ []) = none
find_blank_line at (a ∷ b ∷ c ∷ d ∷ s) =
    if a == 13 && b == 10 && c == 13 && d == 10
    then some (at + 4)
    else find_blank_line (at + 1) (b ∷ c ∷ d ∷ s)

unfoldable pub overlap : ℕ → ℕ
overlap prev_n = if leb 3 prev_n then prev_n - 3 else 0

-- The loop, from a buffer that holds `buf`. None is the -1; otherwise the bytes of the request and
-- what the socket still has. Each round reads a byte at least, so `max` rounds of fuel are enough.
unfoldable pub read_headers_from : ℕ → ℕ → Bytes → List Bytes → Option (Bytes × List Bytes)
read_headers_from zero max buf segments = some (buf, segments)
read_headers_from (suc fuel) max buf segments =
    if ltb (length buf + 1) max
    then elim (transport_read (min (max - length buf) 4096) segments) [
      | none ↦ none
      | some (chunk, segments') ↦
          elim (find_blank_line (overlap (length buf))
            (drop (overlap (length buf)) (buf ++ chunk))) [
              | some n ↦ some (take n (buf ++ chunk), segments')
              | none ↦ read_headers_from fuel max (buf ++ chunk) segments'
            ]
    ]
    else some (buf, segments)

unfoldable pub read_headers : ℕ → List Bytes → Option (Bytes × List Bytes)
unfolding read_headers_from
read_headers max segments = read_headers_from max max [] segments

-- the bytes that a socket still delivers
unfoldable pub total_length : List Bytes → ℕ
total_length [] = 0
total_length (s ∷ segments) = length s + total_length segments
