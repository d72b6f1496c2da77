-- ===== src/Transport/Ops.antt =====
-- The operations of src/transport.c on a transport of either kind.
use local_marks.Prelude.{
  ℕ, zero, suc, ◌+◌, Bool, true, false, not, ◌&&◌, Option, none, some, List, [], ◌∷◌, ltb, ◌==◌,
  if◌then◌else◌, length,
}
use local_marks.Prelude.Bytes.{Bytes}
use local_marks.Prelude.Int.{ℤ, pos, negsuc, ltb_ℤ}
use local_marks.Transport.{Socket, write_some, plain_write, plain_writev, plain_read}
use local_marks.Transport.Tls.{TlsLibrary, Transport, or_empty, tls_transport_write}

module _ {Ctx : Type 0} (tls : TlsLibrary Ctx) where
  -- `transport_read` behind its `read`: the answer of the TLS library, of the flush and of `tls_read`;
  -- the flush gives up at the first answer that is not positive, and its failure is not looked at
  unfoldable pub read_flush : ℕ → Ctx → Socket → Option (ℤ × Bytes × Ctx × Socket)
  unfolding or_empty
  read_flush want ctx s =
      let out = or_empty (tls.tls_get_write_buffer ctx) in
      elim (write_some false s out) [
        | none ↦ none
        | some (w, s') ↦
            let ctx' = if ltb 0 (length out) then tls.tls_buffer_clear ctx else ctx in
            let (n, buf, ctx'') = tls.tls_read ctx' want in some (n, buf, ctx'', s')
      ]

  unfoldable pub read_records :
      ℕ → Ctx → Option (ℤ × Bytes × Socket) → Option (ℤ × Bytes × Ctx × Socket)
  unfolding read_flush
  read_records want ctx none = none
  read_records want ctx (some (negsuc n, raw, s)) = some (negsuc n, [], ctx, s)
  read_records want ctx (some (pos zero, raw, s)) = some (pos 0, [], ctx, s)
  read_records want ctx (some (pos (suc n), raw, s)) =
      let (rc, ctx') = tls.tls_consume_stream ctx raw in
      if ltb_ℤ rc (pos 0) && not (tls.need_more_data rc)
      then some (negsuc 0, [], ctx', s)
      else read_flush want ctx' s

  unfoldable pub tls_transport_read : ℕ → Ctx → Socket → Option (ℤ × Bytes × Ctx × Socket)
  unfolding read_records
  tls_transport_read want ctx s =
      if ltb 0 (tls.tls_pending ctx)
      then (let (n, buf, ctx') = tls.tls_read ctx want in some (n, buf, ctx', s))
      else read_records want ctx (plain_read s 16384)

  -- the result, the bytes in the caller's buffer, and the new states
  unfoldable pub transport_read :
      ℕ → Transport Ctx → Socket → Option (ℤ × Bytes × Transport Ctx × Socket)
  unfolding tls_transport_read
  transport_read want t s = elim t.tls_ctx [
    | none ↦ elim (plain_read s want) [ none ↦ none | some (n, buf, s') ↦ some (n, buf, t, s') ]
    | some ctx ↦ elim (tls_transport_read want ctx s) [
      | none ↦ none
      | some (n, buf, ctx', s') ↦ some (n, buf, record t { tls_ctx = some ctx' }, s')
    ]
  ]

  unfoldable pub transport_write :
      Transport Ctx → Socket → Bytes → Option (ℤ × Transport Ctx × Socket)
  unfolding tls_transport_write
  transport_write t s buf = elim t.tls_ctx [
    | none ↦ elim (plain_write s buf) [ none ↦ none | some (n, s') ↦ some (n, t, s') ]
    | some ctx ↦ elim (tls_transport_write tls ctx s buf) [
      | none ↦ none
      | some (n, ctx', s') ↦ some (n, record t { tls_ctx = some ctx' }, s')
    ]
  ]

  -- Behind the write of a vector of `len` bytes: a result that is not its length ends the loop of
  -- `transport_writev`; `total` is what it has so far.
  unfoldable pub after_vector :
      (Ctx → Socket → ℕ → Option (ℤ × Ctx × Socket))
      → ℕ
      → ℕ
      → Option (ℤ × Ctx × Socket)
      → Option (ℤ × Ctx × Socket)
  after_vector again len total none = none
  after_vector again len total (some (negsuc n, ctx, s)) = some (negsuc 0, ctx, s)
  after_vector again len total (some (pos n, ctx, s)) =
      if n == len then again ctx s (total + n) else some (negsuc 0, ctx, s)

  unfoldable pub tls_writev : List Bytes → Ctx → Socket → ℕ → Option (ℤ × Ctx × Socket)
  unfolding tls_transport_write after_vector
  tls_writev [] ctx s total = some (pos total, ctx, s)
  tls_writev (v ∷ iov) ctx s total =
      after_vector (tls_writev iov) (length v) total (tls_transport_write tls ctx s v)

  unfoldable pub transport_writev :
      Transport Ctx → Socket → List Bytes → Option (ℤ × Transport Ctx × Socket)
  unfolding tls_writev
  transport_writev t s iov = elim t.tls_ctx [
    | none ↦ elim (plain_writev s iov) [ none ↦ none | some (n, s') ↦ some (n, t, s') ]
    | some ctx ↦ elim (tls_writev iov ctx s 0) [
      | none ↦ none
      | some (n, ctx', s') ↦ some (n, record t { tls_ctx = some ctx' }, s')
    ]
  ]

-- what `transport_close` gives back: a context, after a close_notify, and a descriptor
pub record Released (Ctx : Type 0) : Type 0 where
  pub notified : Option Ctx
  pub destroyed : Option Ctx
  pub closed : Option ℕ

unfoldable pub transport_close : {Ctx : Type 0} → Transport Ctx → Transport Ctx × Released Ctx
transport_close t = (
  record { fd = none; tls_ctx = none },
  record { notified = t.tls_ctx; destroyed = t.tls_ctx; closed = t.fd },
)

-- the caller's pointer behind `transport_destroy`, and what was released
unfoldable pub transport_destroy :
    {Ctx : Type 0} → Option (Transport Ctx) → Option (Transport Ctx) × Option (Released Ctx)
unfolding transport_close
transport_destroy none = (none, none)
transport_destroy (some t) = (none, some (transport_close t).1)

-- `rc` is the answer of `setsockopt`
unfoldable pub transport_set_timeout : {Ctx : Type 0} → ℤ → Option (Transport Ctx) → ℤ
transport_set_timeout rc none = negsuc 0
transport_set_timeout rc (some t) = elim t.fd [ none ↦ negsuc 0 | some fd ↦ rc ]

unfoldable pub transport_fd : {Ctx : Type 0} → Option (Transport Ctx) → ℤ
transport_fd none = negsuc 0
transport_fd (some t) = elim t.fd [ none ↦ negsuc 0 | some fd ↦ pos fd ]

unfoldable pub transport_is_tls : {Ctx : Type 0} → Option (Transport Ctx) → Bool
transport_is_tls none = false
transport_is_tls (some t) = elim t.tls_ctx [ none ↦ false | some ctx ↦ true ]
