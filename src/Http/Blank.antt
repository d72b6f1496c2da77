-- ===== src/Http/Blank.antt =====
-- Where `read_headers` of src/http.c stops: the scan that starts three bytes back finds what a scan of
-- the whole buffer would, however the bytes arrive.
use local_marks.Prelude.{
  ℕ, suc, ◌+◌, ◌-◌, ◌≡◌, refl, sym, ap, ◌∙◌, Bool, true, false, ◌&&◌, none, some, [], ◌∷◌, ◌++◌,
  leb, ◌==◌, if◌then◌else◌, length, drop, arith,
}
use mathlib.Core.Path.{subst}
use local_marks.Prelude.Bytes.{Bytes}
use local_marks.Http.Read.{find_blank_line, overlap}

-- the heads that differ, behind a scan that finds nothing
find_none-tail :
    (at a : ℕ) (s : Bytes) → find_blank_line at (a ∷ s) ≡ none → find_blank_line (at + 1) s ≡ none
unfolding find_blank_line
find_none-tail at a [] h = refl
find_none-tail at a (b ∷ []) h = refl
find_none-tail at a (b ∷ c ∷ []) h = refl
find_none-tail at a (b ∷ c ∷ d ∷ s) h = ground (arith, h)

find_none-step :
    (at a b c d : ℕ) (s t : Bytes)
    → find_blank_line at (a ∷ b ∷ c ∷ d ∷ s) ≡ none
    → find_blank_line at (a ∷ b ∷ c ∷ d ∷ t) ≡ find_blank_line (at + 1) (b ∷ c ∷ d ∷ t)
unfolding find_blank_line
find_none-step at a b c d s t h = go (a == 13 && b == 10 && c == 13 && d == 10) h
  where
    go :
        (test : Bool)
        → (if test then some (at + 4) else find_blank_line (at + 1) (b ∷ c ∷ d ∷ s)) ≡ none
        → (if test then some (at + 4) else find_blank_line (at + 1) (b ∷ c ∷ d ∷ t))
          ≡ find_blank_line (at + 1) (b ∷ c ∷ d ∷ t)
    go true k = ground arith
    go false k = refl

at_zero : (at : ℕ) (s : Bytes) → find_blank_line at s ≡ find_blank_line (at + 0) s
at_zero at s = ap (λ k. find_blank_line k s) (omega arith)

align :
    (at a n m : ℕ) (s : Bytes)
    → m ≡ suc n
    → find_blank_line (at + 1 + n) (drop n s) ≡ find_blank_line (at + m) (drop m (a ∷ s))
align at a n m s e =
    subst (λ k. find_blank_line (at + 1 + n) (drop n s) ≡ find_blank_line (at + k) (drop k (a ∷ s)))
      (sym e) (ap (λ k. find_blank_line k (drop n s)) (omega arith))

scan_back :
    (at : ℕ) (buf chunk : Bytes)
    → find_blank_line at buf ≡ none
    → find_blank_line at (buf ++ chunk)
      ≡ find_blank_line (at + (length buf - 3)) (drop (length buf - 3) (buf ++ chunk))
scan_back at [] chunk h = at_zero at chunk
scan_back at (a ∷ []) chunk h = at_zero at (a ∷ chunk)
scan_back at (a ∷ b ∷ []) chunk h = at_zero at (a ∷ b ∷ chunk)
scan_back at (a ∷ b ∷ c ∷ []) chunk h = at_zero at (a ∷ b ∷ c ∷ chunk)
scan_back at (a ∷ b ∷ c ∷ d ∷ s) chunk h =
    find_none-step at a b c d s (s ++ chunk) h
    ∙ scan_back (at + 1) (b ∷ c ∷ d ∷ s) chunk (find_none-tail at a (b ∷ c ∷ d ∷ s) h)
    ∙ align at a (suc (suc (suc (length s))) - 3) (suc (suc (suc (suc (length s)))) - 3)
        (b ∷ c ∷ d ∷ (s ++ chunk)) (omega arith)

-- The scan that `read_headers` starts three bytes before a new chunk finds the blank line that a scan of
-- the whole buffer finds, if there was none before the chunk.
pub find_blank_line-overlap :
    (buf chunk : Bytes)
    → find_blank_line 0 buf ≡ none
    → find_blank_line (overlap (length buf)) (drop (overlap (length buf)) (buf ++ chunk))
      ≡ find_blank_line 0 (buf ++ chunk)
unfolding overlap
find_blank_line-overlap buf chunk h =
    let e : (if leb 3 (length buf) then length buf - 3 else 0) ≡ length buf - 3 = ground arith in
    rw e (
      sym (
        ap (λ k. find_blank_line k (buf ++ chunk)) (omega arith)
        ∙ scan_back 0 buf chunk h
        ∙ ap (λ k. find_blank_line k (drop (length buf - 3) (buf ++ chunk))) (omega arith)))
