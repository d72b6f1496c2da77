-- ===== src/Transport/Write.antt =====
-- The write loop of src/transport.c: what reaches the socket, and when the loop ends.
use local_marks.Prelude.{
  ℕ, zero, suc, ◌≤◌, ◌≡◌, ◌⊎◌, inl, inr, refl, sym, ap, ◌∙◌, true, Option, none, some, List, [],
  ◌∷◌, ◌++◌, append-nil, append_assoc, length, take, drop, arith, All, length-drop, Option-cases,
}
use mathlib.Core.Path.{subst}
use local_marks.Prelude.Bytes.{Bytes}
use local_marks.Prelude.Int.{ℤ, pos}
use local_marks.Transport.{
  WriteCall, wrote, interrupted, write_failed, Socket, Wrote, write_loop, write_some, plain_write,
}

-- an answer that ends the loop
abbrev pub EndsLoop : WriteCall → Type 0
EndsLoop (wrote zero) = Unit {0}
EndsLoop (wrote (suc n)) = ⊥
EndsLoop interrupted = ⊥
EndsLoop write_failed = Unit {0}

-- an answer that brings the loop on, or EINTR
abbrev pub IsSteady : WriteCall → Type 0
IsSteady (wrote zero) = ⊥
IsSteady (wrote (suc n)) = Unit {0}
IsSteady interrupted = Unit {0}
IsSteady write_failed = ⊥

-- how many answers took bytes
unfoldable pub takes : List WriteCall → ℕ
takes [] = 0
takes (wrote zero ∷ calls) = takes calls
takes (wrote (suc n) ∷ calls) = suc (takes calls)
takes (interrupted ∷ calls) = takes calls
takes (write_failed ∷ calls) = takes calls

-- The loop went through `before`, and has written all or met an answer that ends it.
pub record Splits (calls : List WriteCall) (sent buf : Bytes) (w : Wrote) : Type 0 where
  pub done : Bytes
  pub whole : buf ≡ done ++ w.unsent
  pub behind : w.sent ≡ sent ++ done
  pub why :
      (w.unsent ≡ [])
      ⊎ ((before : List WriteCall) × (c : WriteCall) × (calls ≡ before ++ c ∷ w.calls) × EndsLoop c)

abbrev OrSplits : List WriteCall → Bytes → Bytes → Option Wrote → Type 0
OrSplits calls sent buf none = Unit {0}
OrSplits calls sent buf (some w) = Splits calls sent buf w

pub take-drop : (n : ℕ) (xs : Bytes) → take n xs ++ drop n xs ≡ xs
take-drop zero [] = refl
take-drop (suc n) [] = refl
take-drop zero (x ∷ xs) = refl
take-drop (suc n) (x ∷ xs) = ap (λ l. x ∷ l) (take-drop n xs)

one_call :
    (c : WriteCall) (calls : List WriteCall) (sent chunk rest : Bytes) {sent' buf : Bytes}
    (o : Option Wrote)
    → buf ≡ chunk ++ rest
    → sent' ≡ sent ++ chunk
    → OrSplits calls sent' rest o
    → OrSplits (c ∷ calls) sent buf o
one_call c calls sent chunk rest none e f k = tt
one_call c calls sent chunk rest (some w) e f k = record {
  done = chunk ++ k.done;
  whole = e ∙ ap (λ l. chunk ++ l) k.whole ∙ sym (append_assoc chunk k.done w.unsent);
  behind = k.behind ∙ ap (λ l. l ++ k.done) f ∙ append_assoc sent chunk k.done;
  why = elim k.why [
    | inl all ↦ inl all
    | inr (before, c', at, ends) ↦ inr (c ∷ before, c', ap (λ l. c ∷ l) at, ends)
  ];
}

write_loop-Splits :
    (calls : List WriteCall) (sent buf : Bytes)
    → OrSplits calls sent buf (write_loop true calls sent buf)
unfolding write_loop
write_loop-Splits calls sent [] = record {
  done = [];
  whole = refl;
  behind = sym (append-nil sent);
  why = inl refl;
}
write_loop-Splits [] sent (b ∷ bs) = tt
write_loop-Splits (wrote zero ∷ calls) sent (b ∷ bs) = record {
  done = [];
  whole = refl;
  behind = sym (append-nil sent);
  why = inr ([], wrote 0, refl, tt);
}
write_loop-Splits (wrote (suc n) ∷ calls) sent (b ∷ bs) =
    one_call (wrote (suc n)) calls sent (b ∷ take n bs) (drop n bs)
      (write_loop true calls (sent ++ b ∷ take n bs) (drop n bs))
      (ap (λ l. b ∷ l) (sym (take-drop n bs))) refl
      (write_loop-Splits calls (sent ++ b ∷ take n bs) (drop n bs))
write_loop-Splits (interrupted ∷ calls) sent (b ∷ bs) =
    one_call interrupted calls sent [] (b ∷ bs) (write_loop true calls sent (b ∷ bs)) refl
      (sym (append-nil sent)) (write_loop-Splits calls sent (b ∷ bs))
write_loop-Splits (write_failed ∷ calls) sent (b ∷ bs) = record {
  done = [];
  whole = refl;
  behind = sym (append-nil sent);
  why = inr ([], write_failed, refl, tt);
}

-- When a write on a plain socket returns, the buffer is what the socket took and a rest, in order; the
-- result is the number of bytes taken; and there is no rest unless the last call of `write` answered 0 or
-- an error other than EINTR.
pub plain_write-Splits :
    (s : Socket) (buf : Bytes) {n : ℤ} {s' : Socket}
    → plain_write s buf ≡ some (n, s')
    → (w : Wrote) × Splits s.writes [] buf w
      × (n ≡ pos (length w.sent))
      × (s'.sent ≡ s.sent ++ w.sent)
unfolding plain_write write_some
plain_write-Splits s buf {n} {s'} e = elim (Option-cases (write_loop true s.writes [] buf)) [
  | inl waiting ↦ absurd (ground arith)
  | inr (w, done) ↦
      let k : OrSplits s.writes [] buf (some w) =
        subst (OrSplits s.writes [] buf) done (write_loop-Splits s.writes [] buf) in
      let en : n ≡ pos (length w.sent) = ground arith in
      let es : s'.sent ≡ s.sent ++ w.sent = ground arith in (w, k, en, es)
]

write_loop-full :
    (calls : List WriteCall) (sent buf : Bytes)
    → All IsSteady calls
    → length buf ≤ takes calls
    → (w : Wrote) × (write_loop true calls sent buf ≡ some w)
      × (w.sent ≡ sent ++ buf)
      × (w.unsent ≡ [])
unfolding write_loop takes
write_loop-full calls sent [] steady enough = (_, refl, sym (append-nil sent), refl)
write_loop-full [] sent (b ∷ bs) steady enough = absurd (omega arith)
write_loop-full (wrote zero ∷ calls) sent (b ∷ bs) (bad, steady) enough = absurd bad
write_loop-full (wrote (suc n) ∷ calls) sent (b ∷ bs) (_, steady) enough =
    let (w, e, all, none_left) =
      write_loop-full calls (sent ++ b ∷ take n bs) (drop n bs) steady
        (omega (arith, length-drop n bs)) in
    (
      w,
      e,
      all
          ∙ append_assoc sent (b ∷ take n bs) (drop n bs)
          ∙ ap (λ l. sent ++ b ∷ l) (take-drop n bs),
      none_left,
    )
write_loop-full (interrupted ∷ calls) sent (b ∷ bs) (_, steady) enough =
    write_loop-full calls sent (b ∷ bs) steady enough
write_loop-full (write_failed ∷ calls) sent (b ∷ bs) (bad, steady) enough = absurd bad

-- If `write` answers with EINTR or a positive count each time, and with a count at least as often as there
-- are bytes, a write on a plain socket returns, and the socket has taken the whole buffer.
pub plain_write-full :
    (s : Socket) (buf : Bytes)
    → All IsSteady s.writes
    → length buf ≤ takes s.writes
    → (s' : Socket) × (plain_write s buf ≡ some (pos (length buf), s')) × (s'.sent ≡ s.sent ++ buf)
unfolding plain_write write_some
plain_write-full s buf steady enough =
    let (w, e, all, none_left) = write_loop-full s.writes [] buf steady enough in
    (
      record s { writes = w.calls; sent = s.sent ++ w.sent },
      rw (plain_write, e) (rw all refl),
      rw all refl,
    )
