-- ===== src/Transport/Feed.antt =====
-- What a write over TLS gives to the TLS library (src/transport.c).
use local_marks.Prelude.{
  ℕ, zero, suc, ◌+◌, ◌≤◌, ◌<◌, ◌≡◌, ◌⊎◌, inl, inr, refl, sym, ap, ◌∙◌, Bool, true, false, Option,
  none, some, List, [], ◌∷◌, ◌++◌, append-nil, append_assoc, ◌==◌, length, take, drop, arith,
  length-append, length-take, length-take-le, length-drop, Option-cases, ==_iff,
}
use mathlib.Core.Path.{subst}
use local_marks.Prelude.Bytes.{Bytes}
use local_marks.Prelude.Int.{ℤ, pos, negsuc}
use local_marks.Transport.{Socket, write_some, concat, write_loop}
use local_marks.Transport.Write.{take-drop}
use local_marks.Transport.Tls.{
  TlsLibrary, Round, waits, fails, goes_on, or_empty, after_flush, flush_records, write_result,
  after_round, write_chunk, write_chunks, tls_transport_write,
}
use local_marks.Transport.Ops.{tls_writev, after_vector}

-- What the documentation of `tls_write` promises: with `fed` the plain bytes that a context has taken,
-- a positive answer is how many of those offered it took, at most all, and neither reading nor clearing
-- the write buffer takes any.
pub record Feeds {Ctx : Type 0} (tls : TlsLibrary Ctx) (fed : Ctx → Bytes) : Type 0 where
  pub takes_some :
      (ctx : Ctx) (src : Bytes) (n : ℕ)
      → (tls.tls_write ctx src).0 ≡ pos (suc n)
      → (suc n ≤ length src) × (fed (tls.tls_write ctx src).1 ≡ fed ctx ++ take (suc n) src)
  pub clears : (ctx : Ctx) → fed (tls.tls_buffer_clear ctx) ≡ fed ctx

take-take : (n m : ℕ) (xs : Bytes) → n ≤ m → take n (take m xs) ≡ take n xs
take-take zero zero [] le = refl
take-take zero (suc m) [] le = refl
take-take zero zero (x ∷ xs) le = refl
take-take zero (suc m) (x ∷ xs) le = refl
take-take (suc n) zero xs le = absurd (omega arith)
take-take (suc n) (suc m) [] le = refl
take-take (suc n) (suc m) (x ∷ xs) le = ap (λ l. x ∷ l) (take-take n m xs (omega arith))

module _ {Ctx : Type 0} (tls : TlsLibrary Ctx) (fed : Ctx → Bytes) (laws : Feeds tls fed) where
  abbrev ChunkFeeds : Bytes → Bytes → Round Ctx → Type 0
  ChunkFeeds before src waits = Unit {0}
  ChunkFeeds before src (fails ctx s) = Unit {0}
  ChunkFeeds before src (goes_on rest ctx s) =
      (n : ℕ) × (suc n ≤ length src)
      × (rest ≡ drop (suc n) src)
      × (fed ctx ≡ before ++ take (suc n) src)

  after_flush-Feeds :
      (before src : Bytes) (n : ℕ) (ctx : Ctx) (unsent : Bytes) (s : Socket)
      → suc n ≤ length src
      → fed ctx ≡ before ++ take (suc n) src
      → ChunkFeeds before src (after_flush tls (drop (suc n) src) ctx unsent s)
  unfolding after_flush
  after_flush-Feeds before src n ctx [] s le e = (n, le, refl, laws.clears ctx ∙ e)
  after_flush-Feeds before src n ctx (b ∷ bs) s le e = tt

  flush_records-Feeds :
      (before src : Bytes) (n : ℕ) (ctx : Ctx) (s : Socket)
      → suc n ≤ length src
      → fed ctx ≡ before ++ take (suc n) src
      → ChunkFeeds before src (flush_records tls (drop (suc n) src) ctx s)
  unfolding flush_records write_some
  flush_records-Feeds before src n ctx s le e =
      elim (Option-cases (write_loop true s.writes [] (or_empty (tls.tls_get_write_buffer ctx)))) [
        | inl waiting ↦ rw (flush_records, write_some, waiting) tt
        | inr (w, done) ↦
            rw (flush_records, write_some, done)
              (after_flush-Feeds before src n ctx w.unsent
                (record s { writes = w.calls; sent = s.sent ++ w.sent }) le e)
      ]

  write_chunk-Feeds :
      (ctx : Ctx) (s : Socket) (src : Bytes) (r : ℤ × Ctx)
      → r ≡ tls.tls_write ctx (take 16384 src)
      → ChunkFeeds (fed ctx) src (write_chunk tls ctx s src r)
  unfolding write_chunk
  write_chunk-Feeds ctx s src (negsuc n, ctx') e = tt
  write_chunk-Feeds ctx s src (pos zero, ctx') e = tt
  write_chunk-Feeds ctx s src (pos (suc n), ctx') e =
      let (le, took) = laws.takes_some ctx (take 16384 src) n (ap (λ r. r.0) (sym e)) in
      let small : suc n ≤ 16384 = omega (arith, length-take-le 16384 src) in
      let inside : suc n ≤ length src = omega (arith, length-take 16384 src) in
      flush_records-Feeds (fed ctx) src n ctx' s inside
        (ap (λ r. fed r.1) e ∙ took ∙ ap (λ l. fed ctx ++ l) (take-take (suc n) 16384 src small))

  abbrev AllFed : Bytes → Option (Bool × Ctx × Socket) → Type 0
  AllFed target none = Unit {0}
  AllFed target (some (false, ctx, s)) = Unit {0}
  AllFed target (some (true, ctx, s)) = fed ctx ≡ target

  after_round-Feeds :
      (target before src : Bytes) (again : Bytes → Ctx → Socket → Option (Bool × Ctx × Socket))
      (r : Round Ctx)
      → target ≡ before ++ src
      → ChunkFeeds before src r
      → ((rest : Bytes) (ctx : Ctx) (s : Socket)
          → fed ctx ++ rest ≡ target
          → AllFed target (again rest ctx s))
      → AllFed target (after_round tls again r)
  unfolding after_round
  after_round-Feeds target before src again waits e k next = tt
  after_round-Feeds target before src again (fails ctx s) e k next = tt
  after_round-Feeds target before src again (goes_on rest ctx s) e (n, le, at, took) next =
      next rest ctx s (
        rw (at, took) (append_assoc before (take (suc n) src) (drop (suc n) src))
        ∙ ap (λ l. before ++ l) (take-drop (suc n) src)
        ∙ sym e)

  write_chunks-Feeds :
      (fuel : ℕ) (target : Bytes) (ctx : Ctx) (s : Socket) (src : Bytes)
      → fed ctx ++ src ≡ target
      → AllFed target (write_chunks tls fuel ctx s src)
  unfolding write_chunks
  write_chunks-Feeds fuel target ctx s [] e = sym (append-nil (fed ctx)) ∙ e
  write_chunks-Feeds zero target ctx s (b ∷ bs) e = tt
  write_chunks-Feeds (suc fuel) target ctx s (b ∷ bs) e =
      after_round-Feeds target (fed ctx) (b ∷ bs)
        (λ rest ctx' s'. write_chunks tls fuel ctx' s' rest) _ (sym e)
        (write_chunk-Feeds ctx s (b ∷ bs) (tls.tls_write ctx (take 16384 (b ∷ bs))) refl)
        (λ rest ctx' s'. write_chunks-Feeds fuel target ctx' s' rest)

  -- enough rounds are as good as more
  after_round-same :
      (before src : Bytes) (again again' : Bytes → Ctx → Socket → Option (Bool × Ctx × Socket))
      (r : Round Ctx)
      → ChunkFeeds before src r
      → ((rest : Bytes) (ctx : Ctx) (s : Socket)
          → length rest < length src
          → again rest ctx s ≡ again' rest ctx s)
      → after_round tls again r ≡ after_round tls again' r
  unfolding after_round
  after_round-same before src again again' waits k next = refl
  after_round-same before src again again' (fails ctx s) k next = refl
  after_round-same before src again again' (goes_on rest ctx s) (n, le, at, took) next =
      next rest ctx s (rw at (omega (arith, length-drop (suc n) src)))

  write_chunks-enough :
      (fuel fuel' : ℕ) (ctx : Ctx) (s : Socket) (src : Bytes)
      → length src ≤ fuel
      → length src ≤ fuel'
      → write_chunks tls fuel ctx s src ≡ write_chunks tls fuel' ctx s src
  unfolding write_chunks
  write_chunks-enough fuel fuel' ctx s [] le le' = refl
  write_chunks-enough zero fuel' ctx s (b ∷ bs) le le' = absurd (omega arith)
  write_chunks-enough (suc fuel) zero ctx s (b ∷ bs) le le' = absurd (omega arith)
  write_chunks-enough (suc fuel) (suc fuel') ctx s (b ∷ bs) le le' =
      after_round-same (fed ctx) (b ∷ bs) (λ rest ctx' s'. write_chunks tls fuel ctx' s' rest)
        (λ rest ctx' s'. write_chunks tls fuel' ctx' s' rest) _
        (write_chunk-Feeds ctx s (b ∷ bs) (tls.tls_write ctx (take 16384 (b ∷ bs))) refl)
        (λ rest ctx' s' less.
          write_chunks-enough fuel fuel' ctx' s' rest (omega arith) (omega arith))

  -- the result of a write that should take `len` bytes and bring the context to `target`
  abbrev pub WritesAll : Bytes → ℕ → Option (ℤ × Ctx × Socket) → Type 0
  WritesAll target len none = Unit {0}
  WritesAll target len (some (n, ctx, s)) = ((n ≡ pos len) × (fed ctx ≡ target)) ⊎ (n ≡ negsuc 0)

  write_result-WritesAll :
      (target : Bytes) (len : ℕ) (o : Option (Bool × Ctx × Socket))
      → AllFed target o
      → WritesAll target len (write_result tls len o)
  unfolding write_result
  write_result-WritesAll target len none k = tt
  write_result-WritesAll target len (some (true, ctx, s)) k = inl (refl, k)
  write_result-WritesAll target len (some (false, ctx, s)) k = inr refl

  -- With a `tls_write` that takes a positive part of what it is offered, a write over TLS that returns has
  -- either given the context the whole buffer, once and in order, with its length as the result, or its
  -- result is -1; and as many rounds as bytes are as good as any larger number.
  pub tls_transport_write-WritesAll :
      (ctx : Ctx) (s : Socket) (buf : Bytes) (rounds : ℕ)
      → length buf ≤ rounds
      → WritesAll (fed ctx ++ buf) (length buf) (tls_transport_write tls ctx s buf)
        × (write_chunks tls rounds ctx s buf ≡ write_chunks tls (length buf) ctx s buf)
  unfolding tls_transport_write
  tls_transport_write-WritesAll ctx s buf rounds enough = (
    write_result-WritesAll (fed ctx ++ buf) (length buf) (write_chunks tls (length buf) ctx s buf)
        (write_chunks-Feeds (length buf) (fed ctx ++ buf) ctx s buf refl),
    write_chunks-enough rounds (length buf) ctx s buf enough (omega arith),
  )

  after_vector-WritesAll :
      (again : Ctx → Socket → ℕ → Option (ℤ × Ctx × Socket)) (target middle : Bytes)
      (len total sum : ℕ) (o : Option (ℤ × Ctx × Socket))
      → WritesAll middle len o
      → ((ctx : Ctx) (s : Socket)
          → fed ctx ≡ middle
          → WritesAll target sum (again ctx s (total + len)))
      → WritesAll target sum (after_vector tls again len total o)
  unfolding after_vector
  after_vector-WritesAll again target middle len total sum none k next = tt
  after_vector-WritesAll again target middle len total sum (some (negsuc n, ctx, s)) k next =
      inr refl
  after_vector-WritesAll again target middle len total sum (some (pos n, ctx, s)) (inl (e, at))
        next =
      let same : n ≡ len = ground arith in
      let hit : n == len ≡ true = (==_iff n len).1 same in rw hit (rw same (next ctx s at))
  after_vector-WritesAll again target middle len total sum (some (pos n, ctx, s)) (inr bad) next =
      absurd (ground arith)

  tls_writev_from :
      (iov : List Bytes) (ctx : Ctx) (s : Socket) (total sum : ℕ)
      → sum ≡ total + length (concat iov)
      → WritesAll (fed ctx ++ concat iov) sum (tls_writev tls iov ctx s total)
  unfolding tls_writev concat
  tls_writev_from [] ctx s total sum e = inl (ap pos (omega arith), sym (append-nil (fed ctx)))
  tls_writev_from (v ∷ iov) ctx s total sum e =
      after_vector-WritesAll (tls_writev tls iov) (fed ctx ++ (v ++ concat iov)) (fed ctx ++ v)
        (length v) total sum (tls_transport_write tls ctx s v)
        (tls_transport_write-WritesAll ctx s v (length v) (omega arith)).0
        (λ ctx' s' at.
          subst (λ l. WritesAll l sum (tls_writev tls iov ctx' s' (total + length v)))
            (ap (λ l. l ++ concat iov) at ∙ append_assoc (fed ctx) v (concat iov))
            (tls_writev_from iov ctx' s' (total + length v) sum
              (omega (arith, length-append v (concat iov)))))

  -- With the same `tls_write`, `transport_writev` over TLS that returns has either given the context the
  -- vectors one after the other, with the sum of their lengths as the result, or its result is -1.
  pub tls_writev-WritesAll :
      (iov : List Bytes) (ctx : Ctx) (s : Socket)
      → WritesAll (fed ctx ++ concat iov) (length (concat iov)) (tls_writev tls iov ctx s 0)
  tls_writev-WritesAll iov ctx s = tls_writev_from iov ctx s 0 (length (concat iov)) (omega arith)
