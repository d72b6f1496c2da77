-- ===== src/Http/Progress.antt =====
-- The reading of a request takes at least a byte from the socket, and no more than the buffer holds.
use local_marks.Prelude.{
  ℕ, zero, suc, ◌+◌, ◌-◌, ◌≤◌, ◌<◌, ◌≡◌, inl, inr, refl, sym, Bool, true, false, Option, none, some,
  List, [], ◌∷◌, ◌++◌, min, ltb, leb, length, take, drop, arith, length-append, length-take,
  length-take-le, length-drop, Bool-cases,
}
use mathlib.Core.Path.{subst}
use local_marks.Prelude.Bytes.{Bytes, c_str}
use local_marks.Http.{HttpRequest, blank_request}
use local_marks.Http.Read.{
  transport_read, find_blank_line, overlap, read_headers_from, read_headers, total_length,
}
use local_marks.Http.Parse.{parse_lines, http_parse_request}

-- what a read leaves: a chunk that is not empty and not too long, and all other bytes
abbrev pub Chunk : ℕ → List Bytes → Option (Bytes × List Bytes) → Type 0
Chunk want segments none = Unit {0}
Chunk want segments (some (chunk, segments')) =
    (1 ≤ length chunk)
    × (length chunk ≤ want)
    × (total_length segments ≡ length chunk + total_length segments')

pub transport_read-Chunk :
    (want : ℕ) (segments : List Bytes)
    → 0 < want
    → Chunk want segments (transport_read want segments)
unfolding transport_read total_length
transport_read-Chunk want [] h = tt
transport_read-Chunk want ([] ∷ segments) h = tt
transport_read-Chunk want ((c ∷ s) ∷ segments) h = elim (Bool-cases (leb (length (c ∷ s)) want)) [
  | inl fits ↦ rw fits (omega arith, ground arith, refl)
  | inr long ↦ rw long (
    omega (arith, length-take want (c ∷ s)),
    length-take-le want (c ∷ s),
    omega (arith, length-take want (c ∷ s), length-drop want (c ∷ s)),
  )
]

-- what a whole reading leaves: a text that fits and the bytes behind it
abbrev pub ReadOff : ℕ → ℕ → Option (Bytes × List Bytes) → Type 0
ReadOff max total none = Unit {0}
ReadOff max total (some (raw, segments')) = (length raw ≤ max) × (total_length segments' < total)

weaken :
    (max : ℕ) {a b : ℕ} (o : Option (Bytes × List Bytes))
    → a ≤ b
    → ReadOff max a o
    → ReadOff max b o
weaken max none h r = tt
weaken max (some (raw, segments')) h r = (r.0, omega (arith, r.1))

-- the buffer after a chunk: the end is found, or the loop goes on
abbrev pub found :
    List Bytes → Bytes → Option (Bytes × List Bytes) → Option ℕ → Option (Bytes × List Bytes)
found segments' buf rest o = elim o [ some n ↦ some (take n buf, segments') | none ↦ rest ]

found-ReadOff :
    (max : ℕ) (segments' : List Bytes) (buf : Bytes) (rest : Option (Bytes × List Bytes))
    (o : Option ℕ)
    → length buf ≤ max
    → ReadOff max (total_length segments' + 1) rest
    → ReadOff max (total_length segments' + 1) (found segments' buf rest o)
found-ReadOff max segments' buf rest none h r = r
found-ReadOff max segments' buf rest (some n) h r = (omega (arith, length-take n buf), omega arith)

-- one round of the loop, with what the further rounds do
abbrev pub round :
    Bytes
    → (Bytes → List Bytes → Option (Bytes × List Bytes))
    → Option (Bytes × List Bytes)
    → Option (Bytes × List Bytes)
round buf go none = none
round buf go (some (chunk, segments')) =
    found segments' (buf ++ chunk) (go (buf ++ chunk) segments')
      (find_blank_line (overlap (length buf)) (drop (overlap (length buf)) (buf ++ chunk)))

round-ReadOff :
    (max : ℕ) (buf : Bytes) (segments : List Bytes)
    (go : Bytes → List Bytes → Option (Bytes × List Bytes)) (o : Option (Bytes × List Bytes))
    → length buf ≤ max
    → Chunk (min (max - length buf) 4096) segments o
    → ((b : Bytes) (segs : List Bytes)
        → length b ≤ max
        → ReadOff max (total_length segs + 1) (go b segs))
    → ReadOff max (total_length segments) (round buf go o)
round-ReadOff max buf segments go none room c ih = tt
round-ReadOff max buf segments go (some (chunk, segments')) room (nonempty, fits, rest) ih =
    let within : length (buf ++ chunk) ≤ max = omega (arith, length-append {0} buf chunk) in
    weaken max
      (found segments' (buf ++ chunk) (go (buf ++ chunk) segments')
        (find_blank_line (overlap (length buf)) (drop (overlap (length buf)) (buf ++ chunk))))
      (omega arith)
      (found-ReadOff max segments' (buf ++ chunk) (go (buf ++ chunk) segments')
        (find_blank_line (overlap (length buf)) (drop (overlap (length buf)) (buf ++ chunk))) within
        (ih (buf ++ chunk) segments' within))

pub open_round :
    (fuel max : ℕ) (buf : Bytes) (segments : List Bytes)
    → ltb (length buf + 1) max ≡ true
    → read_headers_from (suc fuel) max buf segments
      ≡ round buf
          (read_headers_from fuel max)
          (transport_read (min (max - length buf) 4096) segments)
unfolding read_headers_from
open_round fuel max buf segments room =
    rw room (same (transport_read (min (max - length buf) 4096) segments))
  where
    same :
        (o : Option (Bytes × List Bytes))
        → (elim o as (λ x. Option (Bytes × List Bytes)) [
          | none ↦ none
          | some (chunk, segments') ↦
              elim (find_blank_line
                (overlap (length buf))
                (drop (overlap (length buf)) (buf ++ chunk))) [
                  | some n ↦ some (take n (buf ++ chunk), segments')
                  | none ↦ read_headers_from fuel max (buf ++ chunk) segments'
                ]
        ])
          ≡ round buf (read_headers_from fuel max) o
    same none = refl
    same (some (chunk, segments')) = refl

read_headers_from-ReadOff :
    (fuel max : ℕ) (buf : Bytes) (segments : List Bytes)
    → length buf ≤ max
    → ReadOff max (total_length segments + 1) (read_headers_from fuel max buf segments)
read_headers_from-ReadOff zero max buf segments h = unfold read_headers_from in (h, omega arith)
read_headers_from-ReadOff (suc fuel) max buf segments h =
    elim (Bool-cases (ltb (length buf + 1) max)) [
      | inr full ↦ unfold read_headers_from in rw full (h, omega arith)
      | inl room ↦
          subst (ReadOff max (total_length segments + 1))
            (sym (open_round fuel max buf segments room))
            (weaken max
              (round buf (read_headers_from fuel max)
                (transport_read (min (max - length buf) 4096) segments))
              (omega arith)
              (round-ReadOff max buf segments (read_headers_from fuel max)
                (transport_read (min (max - length buf) 4096) segments) h
                (transport_read-Chunk (min (max - length buf) 4096) segments (ground arith))
                (read_headers_from-ReadOff fuel max)))
    ]

-- A request never overruns the buffer, and its reading takes at least a byte from the socket, so a
-- connection that delivers finitely many bytes carries finitely many requests.
pub read_headers-ReadOff :
    (max : ℕ) (segments : List Bytes)
    → 1 < max
    → ReadOff max (total_length segments) (read_headers max segments)
unfolding read_headers
read_headers-ReadOff zero segments h = absurd (omega arith)
read_headers-ReadOff (suc n) segments h =
    subst (ReadOff (suc n) (total_length segments))
      (sym (open_round n (suc n) [] segments (ground arith)))
      (round-ReadOff (suc n) [] segments (read_headers_from n (suc n))
        (transport_read (min (suc n - 0) 4096) segments) (omega arith)
        (transport_read-Chunk (min (suc n - 0) 4096) segments (ground arith))
        (read_headers_from-ReadOff n (suc n)))

-- an accepted request leaves less than there was
abbrev pub Progress : List Bytes → (Bool × HttpRequest) × List Bytes → Type 0
Progress segments ((accepted, r), segments') =
    accepted ≡ true → total_length segments' < total_length segments

pub http_parse_request-Progress :
    (malloc_ok : Bool) (segments : List Bytes)
    → Progress segments (http_parse_request malloc_ok segments)
unfolding http_parse_request
http_parse_request-Progress false segments = λ h. ground arith
http_parse_request-Progress true segments =
    go (read_headers 8191 segments) (read_headers-ReadOff 8191 segments (omega arith))
  where
    go :
        (o : Option (Bytes × List Bytes))
        → ReadOff 8191 (total_length segments) o
        → Progress segments (elim o as (λ x. (Bool × HttpRequest) × List Bytes) [
          | none ↦ ((false, blank_request), [])
          | some (raw, segments') ↦ (
            parse_lines (c_str raw) (record blank_request { raw = some raw; raw_len = length raw }),
            segments',
          )
        ])
    go none r = λ h. ground arith
    go (some (raw, segments')) r = λ h. r.1
