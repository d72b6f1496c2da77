-- ===== src/Http/Socket.antt =====
-- The list of segments that the parser reads from, beside the plain transport of src/transport.c.
use local_marks.Prelude.{
  ℕ, ◌<◌, ◌≡◌, ◌⊎◌, inl, inr, refl, sym, ap, Option, none, some, List, [], ◌∷◌, leb, length, arith,
  length-take, take_of_le, Option-cases, Bool-cases,
}
use mathlib.Core.Path.{subst}
use local_marks.Prelude.Bytes.{Bytes}
use local_marks.Prelude.Int.{ℤ, pos, negsuc}
use local_marks.Http.Read
use local_marks.Transport.{ReadCall, got, read_failed, Socket, plain_read, on_read}
use local_marks.Transport.Tls.{TlsLibrary, Transport}
use local_marks.Transport.Ops

-- the answers of `read` that deliver these segments, and then the error of the receive timeout
unfoldable pub reads_of : List Bytes → List ReadCall
reads_of [] = read_failed ∷ []
reads_of (s ∷ segments) = got s ∷ reads_of segments

-- A read of the parser against one of the transport: none for a result that is not positive, and
-- otherwise the same bytes, one at least, with the same segments left.
abbrev pub Agrees :
    {Ctx : Type 0}
    → Option (Bytes × List Bytes)
    → Option (ℤ × Bytes × Transport Ctx × Socket)
    → Type 0
Agrees o none = ⊥
Agrees none (some (n, buf, t, s)) = (n ≡ pos 0) ⊎ (n ≡ negsuc 0)
Agrees (some (chunk, rest)) (some (n, buf, t, s)) =
    (n ≡ pos (length chunk)) × (buf ≡ chunk) × (0 < length chunk) × (s.reads ≡ reads_of rest)

abbrev AgreesPlain : Option (Bytes × List Bytes) → Option (ℤ × Bytes × Socket) → Type 0
AgreesPlain o none = ⊥
AgreesPlain none (some (n, buf, s)) = (n ≡ pos 0) ⊎ (n ≡ negsuc 0)
AgreesPlain (some (chunk, rest)) (some (n, buf, s)) =
    (n ≡ pos (length chunk)) × (buf ≡ chunk) × (0 < length chunk) × (s.reads ≡ reads_of rest)

on_read-Agrees :
    (want : ℕ) (segments : List Bytes) (s : Socket)
    → 0 < want
    → AgreesPlain (Read.transport_read want segments) (on_read s want (reads_of segments))
unfolding Read.transport_read on_read reads_of
on_read-Agrees want [] s h = inr refl
on_read-Agrees want ([] ∷ segments) s h = inl (ap pos (omega arith))
on_read-Agrees want ((c ∷ bytes) ∷ segments) s h =
    elim (Bool-cases (leb (length (c ∷ bytes)) want)) [
      | inl fits ↦
          rw fits
            (ap pos (ground arith), take_of_le want (c ∷ bytes) (ground arith), omega arith, refl)
      | inr more ↦ rw more (
        ap pos (sym (length-take want (c ∷ bytes))),
        refl,
        ground (arith, length-take want (c ∷ bytes)),
        refl,
      )
    ]

nothing_read : (o : Option (Bytes × List Bytes)) → ¬ (AgreesPlain o none)
nothing_read none k = k
nothing_read (some r) k = k

with_transport :
    {Ctx : Type 0} (t : Transport Ctx) (o : Option (Bytes × List Bytes)) (n : ℤ) (buf : Bytes)
    (s : Socket)
    → AgreesPlain o (some (n, buf, s))
    → Agrees o (some (n, buf, t, s))
with_transport t none n buf s k = k
with_transport t (some r) n buf s k = k

plain-Agrees :
    {Ctx : Type 0} (tls : TlsLibrary Ctx) (want : ℕ) (t : Transport Ctx) (s : Socket)
    (o : Option (Bytes × List Bytes))
    → t.tls_ctx ≡ none
    → AgreesPlain o (plain_read s want)
    → Agrees o (Ops.transport_read tls want t s)
unfolding Ops.transport_read
plain-Agrees tls want t s o at k = elim (Option-cases (plain_read s want)) [
  | inl waiting ↦ absurd (nothing_read o (subst (AgreesPlain o) waiting k))
  | inr ((n, buf, s'), answered) ↦
      let e : Ops.transport_read tls want t s ≡ some (n, buf, t, s') =
        simp (Ops.transport_read, at, answered) refl in
      subst (Agrees o) (sym e) (with_transport t o n buf s' (subst (AgreesPlain o) answered k))
]

-- On a plain socket whose `read` delivers the segments and then times out, `transport_read` gives what
-- the parser's read of those segments gives: no positive result where that has none, and otherwise the
-- same bytes, at least one, with the same segments left.
pub transport_read-Agrees :
    {Ctx : Type 0} (tls : TlsLibrary Ctx) (want : ℕ) (segments : List Bytes) (t : Transport Ctx)
    (s : Socket)
    → 0 < want
    → t.tls_ctx ≡ none
    → s.reads ≡ reads_of segments
    → Agrees (Read.transport_read want segments) (Ops.transport_read tls want t s)
transport_read-Agrees tls want segments t s h at delivers =
    plain-Agrees tls want t s (Read.transport_read want segments) at
      (unfold plain_read in rw delivers (on_read-Agrees want segments s h))
