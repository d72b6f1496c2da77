-- ===== src/Http/Stream.antt =====
-- What `read_headers` of src/http.c makes of the stream of bytes that the socket delivers.
use local_marks.Prelude.{
  ℕ, zero, suc, ◌+◌, ◌-◌, ◌≤◌, ◌<◌, ◌≡◌, ◌⊎◌, inl, inr, refl, sym, ap, ◌∙◌, ◌&&◌, Option, none,
  some, List, [], ◌∷◌, ◌++◌, append_assoc, min, ltb, leb, ◌==◌, length, take, drop, arith,
  length-append, length-take, Bool-cases,
}
use mathlib.Core.Path.{subst}
use local_marks.Prelude.Bytes.{Bytes}
use local_marks.Http.Read.{
  transport_read, find_blank_line, overlap, read_headers_from, read_headers,
}
use local_marks.Http.Progress.{Chunk, transport_read-Chunk, found, round, open_round}
use local_marks.Http.Blank.{find_blank_line-overlap}

-- all bytes of the segments
abbrev pub stream : List Bytes → Bytes
stream [] = []
stream (s ∷ segments) = s ++ stream segments

-- a scan that finds the end at n finds it in the first n bytes alone
abbrev Ends : ℕ → Bytes → ℕ → Type 0
Ends at s n =
    (m : ℕ) × (n ≡ at + m + 4)
    × (m + 4 ≤ length s)
    × (find_blank_line at (take (suc (suc (suc (suc m)))) s) ≡ some n)

find_blank_line-Ends : (at : ℕ) (s : Bytes) (n : ℕ) → find_blank_line at s ≡ some n → Ends at s n
unfolding find_blank_line
find_blank_line-Ends at [] n h = ground arith
find_blank_line-Ends at (a ∷ []) n h = ground arith
find_blank_line-Ends at (a ∷ b ∷ []) n h = ground arith
find_blank_line-Ends at (a ∷ b ∷ c ∷ []) n h = ground arith
find_blank_line-Ends at (a ∷ b ∷ c ∷ d ∷ s) n h =
    elim (Bool-cases (a == 13 && b == 10 && c == 13 && d == 10)) [
      | inl blank ↦ (0, ground arith, omega arith, rw blank (ground arith))
      | inr other ↦
          let (m, e, le, f) = find_blank_line-Ends (at + 1) (b ∷ c ∷ d ∷ s) n (ground arith) in
          (suc m, omega arith, omega arith, rw other f)
    ]

-- the request ends with the first blank line, or there is none and the buffer is full
abbrev pub Stops : ℕ → Bytes → Type 0
Stops max raw =
    (find_blank_line 0 raw ≡ some (length raw))
    ⊎ ((find_blank_line 0 raw ≡ none) × (max ≤ length raw + 1))

-- the start of the bytes that arrived, up to such an end
abbrev pub Reads : ℕ → Bytes → Option (Bytes × List Bytes) → Type 0
Reads max all none = Unit {0}
Reads max all (some (raw, segments')) = Stops max raw × ((rest : Bytes) × (all ≡ raw ++ rest))

take-drop : (n : ℕ) (s : Bytes) → s ≡ take n s ++ drop n s
take-drop zero s = refl
take-drop (suc n) [] = refl
take-drop (suc n) (c ∷ s) = ap (λ r. c ∷ r) (take-drop n s)

-- no byte is lost by a read
abbrev Keeps : Bytes → Option (Bytes × List Bytes) → Type 0
Keeps all none = Unit {0}
Keeps all (some (chunk, segments')) = all ≡ chunk ++ stream segments'

transport_read-Keeps :
    (want : ℕ) (segments : List Bytes) → Keeps (stream segments) (transport_read want segments)
unfolding transport_read
transport_read-Keeps want [] = tt
transport_read-Keeps want ([] ∷ segments) = tt
transport_read-Keeps want ((c ∷ s) ∷ segments) = elim (Bool-cases (leb (length (c ∷ s)) want)) [
  | inl fits ↦ rw fits refl
  | inr long ↦ rw long (
      ap (λ r. r ++ stream segments) (take-drop want (c ∷ s))
      ∙ append_assoc (take want (c ∷ s)) (drop want (c ∷ s)) (stream segments))
]

-- the end that a scan finds in the whole buffer
found-Reads :
    (max : ℕ) (segments' : List Bytes) (buf : Bytes) (rest : Option (Bytes × List Bytes))
    (o : Option ℕ)
    → find_blank_line 0 buf ≡ o
    → (o ≡ none → Reads max (buf ++ stream segments') rest)
    → Reads max (buf ++ stream segments') (found segments' buf rest o)
found-Reads max segments' buf rest none h r = r refl
found-Reads max segments' buf rest (some n) h r =
    let (m, e, le, f) = find_blank_line-Ends 0 buf n h in
    let four : n ≡ suc (suc (suc (suc m))) = omega arith in
    let len : length (take n buf) ≡ n = omega (arith, length-take n buf) in
    (
      inl (
          subst (λ k. find_blank_line 0 (take n buf) ≡ some k) (sym len)
            (subst (λ k. find_blank_line 0 (take k buf) ≡ some n) (sym four) f)),
      (
        drop n buf ++ stream segments',
        ap (λ b. b ++ stream segments') (take-drop n buf)
            ∙ append_assoc (take n buf) (drop n buf) (stream segments'),
      ),
    )

-- one round on a buffer without a blank line
round-Reads :
    (max : ℕ) (buf : Bytes) (segments : List Bytes)
    (go : Bytes → List Bytes → Option (Bytes × List Bytes)) (o : Option (Bytes × List Bytes))
    → find_blank_line 0 buf ≡ none
    → length buf ≤ max
    → Chunk (min (max - length buf) 4096) segments o
    → Keeps (stream segments) o
    → ((b : Bytes) (segs : List Bytes)
        → find_blank_line 0 b ≡ none
        → length buf < length b
        → length b ≤ max
        → Reads max (b ++ stream segs) (go b segs))
    → Reads max (buf ++ stream segments) (round buf go o)
round-Reads max buf segments go none h room c k ih = tt
round-Reads max buf segments go (some (chunk, segments')) h room (nonempty, fits, rest) k ih =
    let same : (buf ++ chunk) ++ stream segments' ≡ buf ++ stream segments =
      append_assoc buf chunk (stream segments') ∙ ap (λ b. buf ++ b) (sym k) in
    let more : length buf < length (buf ++ chunk) = omega (arith, length-append {0} buf chunk) in
    let within : length (buf ++ chunk) ≤ max = omega (arith, length-append {0} buf chunk) in
    subst (λ all. Reads max all (round buf go (some (chunk, segments')))) same
      (found-Reads max segments' (buf ++ chunk) (go (buf ++ chunk) segments')
        (find_blank_line (overlap (length buf)) (drop (overlap (length buf)) (buf ++ chunk)))
        (sym (find_blank_line-overlap buf chunk h))
        (λ nothing.
          ih (buf ++ chunk) segments' (sym (find_blank_line-overlap buf chunk h) ∙ nothing) more
            within))

read_headers_from-Reads :
    (fuel max : ℕ) (buf : Bytes) (segments : List Bytes)
    → find_blank_line 0 buf ≡ none
    → length buf ≤ max
    → max ≤ length buf + fuel
    → Reads max (buf ++ stream segments) (read_headers_from fuel max buf segments)
read_headers_from-Reads zero max buf segments h fits enough =
    unfold read_headers_from in (inr (h, omega arith), (stream segments, refl))
read_headers_from-Reads (suc fuel) max buf segments h fits enough =
    elim (Bool-cases (ltb (length buf + 1) max)) [
      | inr full ↦
          unfold read_headers_from in rw full (inr (h, ground arith), (stream segments, refl))
      | inl room ↦
          subst (Reads max (buf ++ stream segments)) (sym (open_round fuel max buf segments room)) (
            round-Reads max buf segments (read_headers_from fuel max)
              (transport_read (min (max - length buf) 4096) segments) h fits
              (transport_read-Chunk (min (max - length buf) 4096) segments (ground arith))
              (transport_read-Keeps (min (max - length buf) 4096) segments)
              (λ b segs none_yet longer within.
                read_headers_from-Reads fuel max b segs none_yet within (omega arith)))
    ]

-- What `read_headers` returns is the start of the bytes that arrived, up to the end of the first blank
-- line, or of at least `max` - 1 bytes without one; however the bytes are cut into segments, and
-- although each scan starts only three bytes before the new ones.
pub read_headers-Reads :
    (max : ℕ) (segments : List Bytes) → Reads max (stream segments) (read_headers max segments)
unfolding read_headers
read_headers-Reads max segments =
    read_headers_from-Reads max max [] segments (unfold find_blank_line in refl) (omega arith)
      (omega arith)
