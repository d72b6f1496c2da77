-- ===== src/Transport/Secure.antt =====
-- The TLS handshake of src/transport.c: its reads and its success.
use local_marks.Prelude.{
  ℕ, zero, suc, ◌+◌, ◌-◌, ◌/◌, ◌<◌, length-drop, ◌≤◌, ◌≡◌, inl, inr, refl, sym, Bool, true, false,
  ◌||◌, Option, none, some, List, [], ◌∷◌, ◌++◌, leb, length, arith, Option-cases, Bool-cases,
}
use local_marks.Prelude.Bytes.{Bytes}
use local_marks.Prelude.Int.{ℤ, pos, negsuc}
use local_marks.Transport.{
  ReadCall, Socket, write_some, plain_read, on_read, got, read_failed, write_loop,
}
use local_marks.Transport.Tls.{
  TlsLibrary, Round, waits, fails, goes_on, or_empty, after_flush, flush_records, handshake_bytes,
  handshake_round, handshake, transport_tls_handshake, after_round,
}

-- how many calls of `read` with a buffer of 4096 bytes the answers of a socket are: an error is one, and
-- bytes that the kernel holds are one for each 4096 or a part of these
unfoldable pub calls_in : List ReadCall → ℕ
calls_in [] = 0
calls_in (read_failed ∷ reads) = 1 + calls_in reads
calls_in (got bytes ∷ reads) = (1 + (length bytes - 1) / 4096) + calls_in reads

-- Behind at most `rounds` reads, a success has established the connection.
abbrev pub Established : {Ctx : Type 0} → TlsLibrary Ctx → Bool → Ctx → Type 0
Established tls false ctx = Unit {0}
Established tls true ctx = tls.tls_established ctx ≡ true

abbrev pub Establishes :
    {Ctx : Type 0} → TlsLibrary Ctx → ℕ → Socket → Option (Bool × Ctx × Socket) → Type 0
Establishes tls rounds s none = Unit {0}
Establishes tls rounds s (some (ok, ctx, s')) =
    Established tls ok ctx × (calls_in s.reads ≤ calls_in s'.reads + rounds)

abbrev ReadsOne : {Ctx : Type 0} → Socket → Round Ctx → Type 0
ReadsOne s waits = Unit {0}
ReadsOne s (fails ctx s') = calls_in s.reads ≤ calls_in s'.reads + 1
ReadsOne s (goes_on rest ctx s') = calls_in s.reads ≤ calls_in s'.reads + 1

at_most : {n : ℕ} → leb n 4096 ≡ true → n ≤ 4096
at_most h = ground arith

more_than : {n : ℕ} → leb n 4096 ≡ false → 4096 < n
more_than h = ground arith

module _ {Ctx : Type 0} (tls : TlsLibrary Ctx) where
  after_flush-ReadsOne :
      (s s' : Socket) (rest : Bytes) (ctx : Ctx) (unsent : Bytes)
      → calls_in s.reads ≤ calls_in s'.reads + 1
      → ReadsOne s (after_flush tls rest ctx unsent s')
  unfolding after_flush
  after_flush-ReadsOne s s' rest ctx [] le = le
  after_flush-ReadsOne s s' rest ctx (b ∷ bs) le = le

  flush_records-ReadsOne :
      (s s' : Socket) (rest : Bytes) (ctx : Ctx)
      → calls_in s.reads ≤ calls_in s'.reads + 1
      → ReadsOne s (flush_records tls rest ctx s')
  unfolding flush_records write_some
  flush_records-ReadsOne s s' rest ctx le =
      elim (Option-cases (write_loop true s'.writes [] (or_empty (tls.tls_get_write_buffer ctx)))) [
        | inl waiting ↦ rw (flush_records, write_some, waiting) tt
        | inr (w, done) ↦
            rw (flush_records, write_some, done)
              (after_flush-ReadsOne s (record s' { writes = w.calls; sent = s'.sent ++ w.sent })
                rest ctx w.unsent le)
      ]

  on_bytes-ReadsOne :
      (s s' : Socket) (ctx : Ctx) (buf : Bytes)
      → calls_in s.reads ≤ calls_in s'.reads + 1
      → ReadsOne s (handshake_bytes tls ctx s' buf)
  unfolding handshake_bytes
  on_bytes-ReadsOne s s' ctx buf le =
      let r = tls.tls_consume_stream ctx buf in
      elim (Bool-cases (tls.generic_error r.0 || tls.broken_packet r.0)) [
        | inl bad ↦ rw bad le
        | inr good ↦ rw good (flush_records-ReadsOne s s' [] r.1 le)
      ]

  abbrev ReadAtMostOne : Socket → Option (ℤ × Bytes × Socket) → Type 0
  ReadAtMostOne s none = Unit {0}
  ReadAtMostOne s (some (n, buf, s')) = calls_in s.reads ≤ calls_in s'.reads + 1

  on_read-one :
      (s : Socket) (reads : List ReadCall)
      → reads ≡ s.reads
      → ReadAtMostOne s (on_read s 4096 reads)
  unfolding on_read calls_in
  on_read-one s [] e = tt
  on_read-one s (read_failed ∷ reads) e = rw (sym e) (omega arith)
  on_read-one s (got bytes ∷ reads) e = elim (Bool-cases (leb (length bytes) 4096)) [
    | inl fits ↦ rw (fits, sym e) (omega (arith, at_most fits))
    | inr more ↦ rw (more, sym e) (omega (arith, length-drop 4096 bytes, more_than more))
  ]

  round-ReadsOne :
      (s : Socket) (ctx : Ctx) (r : Option (ℤ × Bytes × Socket))
      → ReadAtMostOne s r
      → ReadsOne s (handshake_round tls ctx s r)
  unfolding handshake_round
  round-ReadsOne s ctx none le = tt
  round-ReadsOne s ctx (some (negsuc n, buf, s')) le = le
  round-ReadsOne s ctx (some (pos zero, buf, s')) le = le
  round-ReadsOne s ctx (some (pos (suc n), buf, s')) le = on_bytes-ReadsOne s s' ctx buf le

  more_rounds :
      (rounds : ℕ) (s s' : Socket) (o : Option (Bool × Ctx × Socket))
      → calls_in s.reads ≤ calls_in s'.reads + 1
      → Establishes tls rounds s' o
      → Establishes tls (suc rounds) s o
  more_rounds rounds s s' none le k = tt
  more_rounds rounds s s' (some (ok, ctx, s'')) le k = (k.0, omega (arith, k.1))

  after_round-Establishes :
      (rounds : ℕ) (s : Socket) (r : Round Ctx)
      → ((ctx : Ctx) (s' : Socket) → Establishes tls rounds s' (handshake tls rounds ctx s'))
      → ReadsOne s r
      → Establishes tls (suc rounds) s (after_round tls (λ rest. handshake tls rounds) r)
  unfolding after_round
  after_round-Establishes rounds s waits again one = tt
  after_round-Establishes rounds s (fails ctx s') again one = (tt, omega arith)
  after_round-Establishes rounds s (goes_on rest ctx s') again one =
      more_rounds rounds s s' (handshake tls rounds ctx s') one (again ctx s')

  handshake-Establishes :
      (rounds : ℕ) (ctx : Ctx) (s : Socket) → Establishes tls rounds s (handshake tls rounds ctx s)
  unfolding handshake
  handshake-Establishes zero ctx s = (tt, omega arith)
  handshake-Establishes (suc rounds) ctx s = elim (Bool-cases (tls.tls_established ctx)) [
    | inl up ↦ rw up (up, omega arith)
    | inr down ↦ rw down (
        after_round-Establishes rounds s (handshake_round tls ctx s (plain_read s 4096))
          (handshake-Establishes rounds)
          (round-ReadsOne s ctx (plain_read s 4096)
            (unfold plain_read in on_read-one s s.reads refl)))
  ]

  -- A TLS handshake that returns 0 has an established context, and a handshake that returns has taken at
  -- most 20 reads off the socket, each of at most 4096 bytes.
  pub transport_tls_handshake-Establishes :
      (ctx : Ctx) (s : Socket) → Establishes tls 20 s (transport_tls_handshake tls ctx s)
  unfolding transport_tls_handshake
  transport_tls_handshake-Establishes ctx s = handshake-Establishes 20 ctx s
