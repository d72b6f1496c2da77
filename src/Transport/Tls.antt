-- ===== src/Transport/Tls.antt =====
-- The TLS side of src/transport.c: the handshake, and the loop of a write.
use local_marks.Prelude.{
  ℕ, zero, suc, Bool, true, false, ◌||◌, Option, none, some, [], ◌∷◌, if◌then◌else◌, length, take,
  drop,
}
use local_marks.Prelude.Bytes.{Bytes}
use local_marks.Prelude.Int.{ℤ, pos, negsuc}
use local_marks.Transport.{Socket, write_some, plain_read}

-- What the code calls of its TLS library, with that library's error numbers. The write buffer is what
-- waits to go to the socket; `tls_write` answers how many bytes it took.
pub record TlsLibrary (Ctx : Type 0) : Type 0 where
  pub tls_accept : Ctx → Option Ctx
  pub tls_established : Ctx → Bool
  pub tls_consume_stream : Ctx → Bytes → ℤ × Ctx
  pub tls_get_write_buffer : Ctx → Option Bytes
  pub tls_buffer_clear : Ctx → Ctx
  pub tls_write : Ctx → Bytes → ℤ × Ctx
  pub tls_read : Ctx → ℕ → ℤ × Bytes × Ctx
  pub tls_pending : Ctx → ℕ
  pub generic_error : ℤ → Bool
  pub broken_packet : ℤ → Bool
  pub need_more_data : ℤ → Bool

-- the descriptor, none for -1, and the context of a connection that is encrypted
pub record Transport (Ctx : Type 0) : Type 0 where
  pub fd : Option ℕ
  pub tls_ctx : Option Ctx

-- How one round of a TLS loop ends: in a call that has not returned, with the function's -1, or with
-- what is left to write.
pub data Round (Ctx : Type 0) : Type 0 where
  waits : Round Ctx
  fails : Ctx → Socket → Round Ctx
  goes_on : Bytes → Ctx → Socket → Round Ctx

unfoldable pub or_empty : Option Bytes → Bytes
or_empty none = []
or_empty (some out) = out

module _ {Ctx : Type 0} (tls : TlsLibrary Ctx) where
  -- `calloc` may fail
  unfoldable pub transport_new : Bool → ℕ → Option (Transport Ctx)
  transport_new calloc_ok fd =
      if calloc_ok then some (record { fd = some fd; tls_ctx = none }) else none

  unfoldable pub transport_set_tls : Transport Ctx → Ctx → Transport Ctx
  transport_set_tls t master = record t { tls_ctx = tls.tls_accept master }

  -- what follows a flush of the write buffer: it is cleared, or -1 unless all of it went
  unfoldable pub after_flush : Bytes → Ctx → Bytes → Socket → Round Ctx
  after_flush rest ctx [] s = goes_on rest (tls.tls_buffer_clear ctx) s
  after_flush rest ctx (b ∷ unsent) s = fails ctx s

  unfoldable pub flush_records : Bytes → Ctx → Socket → Round Ctx
  unfolding or_empty after_flush
  flush_records rest ctx s = elim (write_some true s (or_empty (tls.tls_get_write_buffer ctx))) [
    | none ↦ waits
    | some (w, s') ↦ after_flush rest ctx w.unsent s'
  ]

  unfoldable pub handshake_bytes : Ctx → Socket → Bytes → Round Ctx
  unfolding flush_records
  handshake_bytes ctx s buf =
      let (rc, ctx') = tls.tls_consume_stream ctx buf in
      if tls.generic_error rc || tls.broken_packet rc then fails ctx' s else flush_records [] ctx' s

  -- one round of the handshake behind the test of `tls_established`
  unfoldable pub handshake_round : Ctx → Socket → Option (ℤ × Bytes × Socket) → Round Ctx
  unfolding handshake_bytes
  handshake_round ctx s none = waits
  handshake_round ctx s (some (negsuc n, buf, s')) = fails ctx s'
  handshake_round ctx s (some (pos zero, buf, s')) = fails ctx s'
  handshake_round ctx s (some (pos (suc n), buf, s')) = handshake_bytes ctx s' buf

  -- what a loop does behind a round: it ends, or goes on with `again`
  unfoldable pub after_round :
      (Bytes → Ctx → Socket → Option (Bool × Ctx × Socket))
      → Round Ctx
      → Option (Bool × Ctx × Socket)
  after_round again waits = none
  after_round again (fails ctx s) = some (false, ctx, s)
  after_round again (goes_on rest ctx s) = again rest ctx s

  -- The handshake; true is its 0. The fuel is `max_rounds`.
  unfoldable pub handshake : ℕ → Ctx → Socket → Option (Bool × Ctx × Socket)
  unfolding handshake_round plain_read after_round
  handshake zero ctx s = some (false, ctx, s)
  handshake (suc rounds) ctx s =
      if tls.tls_established ctx
      then some (true, ctx, s)
      else after_round (λ rest. handshake rounds) (handshake_round ctx s (plain_read s 4096))

  unfoldable pub transport_tls_handshake : Ctx → Socket → Option (Bool × Ctx × Socket)
  unfolding handshake
  transport_tls_handshake ctx s = handshake 20 ctx s

  unfoldable pub transport_accept : Transport Ctx → Socket → Option (Bool × Transport Ctx × Socket)
  unfolding transport_tls_handshake
  transport_accept t s = elim t.tls_ctx [
    | none ↦ some (true, t, s)
    | some ctx ↦ elim (transport_tls_handshake ctx s) [
      | none ↦ none
      | some (ok, ctx', s') ↦ some (ok, record t { tls_ctx = some ctx' }, s')
    ]
  ]

  -- One round of `transport_write`: a chunk of at most 16384 bytes.
  unfoldable pub write_chunk : Ctx → Socket → Bytes → ℤ × Ctx → Round Ctx
  unfolding flush_records
  write_chunk ctx s src (negsuc n, ctx') = fails ctx' s
  write_chunk ctx s src (pos zero, ctx') = fails ctx' s
  write_chunk ctx s src (pos (suc n), ctx') = flush_records (drop (suc n) src) ctx' s

  -- `while (remaining > 0)`; every round that goes on takes a byte, so `length src` rounds are enough
  unfoldable pub write_chunks : ℕ → Ctx → Socket → Bytes → Option (Bool × Ctx × Socket)
  unfolding write_chunk after_round
  write_chunks fuel ctx s [] = some (true, ctx, s)
  write_chunks zero ctx s (b ∷ bs) = none
  write_chunks (suc fuel) ctx s (b ∷ bs) =
      after_round (λ rest ctx' s'. write_chunks fuel ctx' s' rest)
        (write_chunk ctx s (b ∷ bs) (tls.tls_write ctx (take 16384 (b ∷ bs))))

  unfoldable pub write_result : ℕ → Option (Bool × Ctx × Socket) → Option (ℤ × Ctx × Socket)
  write_result len none = none
  write_result len (some (true, ctx, s)) = some (pos len, ctx, s)
  write_result len (some (false, ctx, s)) = some (negsuc 0, ctx, s)

  unfoldable pub tls_transport_write : Ctx → Socket → Bytes → Option (ℤ × Ctx × Socket)
  unfolding write_chunks write_result
  tls_transport_write ctx s buf = write_result (length buf) (write_chunks (length buf) ctx s buf)
