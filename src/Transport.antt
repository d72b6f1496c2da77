-- ===== src/Transport.antt =====
-- src/transport.c: reads and writes over a plain or a TLS socket. What the kernel answers to the calls
-- of `read` and `write` is a list of answers in the order of the calls; a call that has none has not
-- returned, and none as a result means that the code is still in it. The TLS library is a parameter.
pub mod Tls
pub mod Ops
pub mod Write
pub mod Secure
pub mod Feed
mod Tests
use local_marks.Prelude.{
  ℕ, zero, suc, ◌+◌, ◌-◌, ◌*◌, ◌/◌, ◌%◌, ◌^◌, ◌≤◌, ◌<◌, ◌≡◌, ◌≢◌, ◌↔◌, ◌⊎◌, inl, inr, refl, sym, ap,
  ◌∙◌, Bool, true, false, not, ◌&&◌, ◌||◌, Option, none, some, List, [], ◌∷◌, ◌++◌, map, append-nil,
  append_assoc, min, ltb, leb, ◌==◌, if◌then◌else◌, length, get_or, get_elem?, set, replicate, take,
  drop, arith, tests, All, All-get, All-set, All-append, All-replicate, length-set, length-map,
  length-append, length-replicate, length-take, length-take-le, length-drop, take_of_le,
  get_or-set_self, get_or-set_ne, get_or-replicate, Option-cases, Bool-cases, ==_iff, ltb→lt,
  lt→ltb, leb→le,
}
use local_marks.Prelude.Bytes.{Bytes}
use local_marks.Prelude.Int.{ℤ, pos, negsuc}

-- an answer of `read`; no byte is the end of the stream
pub data ReadCall : Type 0 where
  got : Bytes → ReadCall
  read_failed : ReadCall

-- An answer of `write`: it took that many bytes (as many as were offered, if there were fewer), EINTR,
-- or another error.
pub data WriteCall : Type 0 where
  wrote : ℕ → WriteCall
  interrupted : WriteCall
  write_failed : WriteCall

-- the answers to come, and what the socket has taken so far
pub record Socket : Type 0 where
  pub reads : List ReadCall
  pub writes : List WriteCall
  pub sent : Bytes

-- how a write loop ends: what it wrote, what it did not, and the answers that are left
pub record Wrote : Type 0 where
  pub sent : Bytes
  pub unsent : Bytes
  pub calls : List WriteCall

-- `while (written < len)` round `write`: an answer of 0 or an error ends it, and so does EINTR unless
-- `retry`. The bytes are `rest` behind those of `sent`.
unfoldable pub write_loop : Bool → List WriteCall → Bytes → Bytes → Option Wrote
write_loop retry calls sent [] = some (record { sent = sent; unsent = []; calls = calls })
write_loop retry [] sent (b ∷ bs) = none
write_loop retry (wrote zero ∷ calls) sent (b ∷ bs) =
    some (record { sent = sent; unsent = b ∷ bs; calls = calls })
write_loop retry (wrote (suc n) ∷ calls) sent (b ∷ bs) =
    write_loop retry calls (sent ++ b ∷ take n bs) (drop n bs)
write_loop false (interrupted ∷ calls) sent (b ∷ bs) =
    some (record { sent = sent; unsent = b ∷ bs; calls = calls })
write_loop true (interrupted ∷ calls) sent (b ∷ bs) = write_loop true calls sent (b ∷ bs)
write_loop retry (write_failed ∷ calls) sent (b ∷ bs) =
    some (record { sent = sent; unsent = b ∷ bs; calls = calls })

-- the socket behind a write loop
unfoldable pub write_some : Bool → Socket → Bytes → Option (Wrote × Socket)
unfolding write_loop
write_some retry s buf = elim (write_loop retry s.writes [] buf) [
  | none ↦ none
  | some w ↦ some (w, record s { writes = w.calls; sent = s.sent ++ w.sent })
]

-- `transport_write` on a plain socket: the count, which is short after an error
unfoldable pub plain_write : Socket → Bytes → Option (ℤ × Socket)
unfolding write_some
plain_write s buf = elim (write_some true s buf) [
  | none ↦ none
  | some (w, s') ↦ some (pos (length w.sent), s')
]

-- one call of `writev`; the bytes of the vectors one after the other
unfoldable pub concat : List Bytes → Bytes
concat [] = []
concat (v ∷ iov) = v ++ concat iov

unfoldable pub on_writev : Socket → Bytes → List WriteCall → Option (ℤ × Socket)
on_writev s buf [] = none
on_writev s buf (wrote n ∷ calls) =
    some (pos (min n (length buf)), record s { writes = calls; sent = s.sent ++ take n buf })
on_writev s buf (interrupted ∷ calls) = some (negsuc 0, record s { writes = calls })
on_writev s buf (write_failed ∷ calls) = some (negsuc 0, record s { writes = calls })

unfoldable pub plain_writev : Socket → List Bytes → Option (ℤ × Socket)
unfolding on_writev concat
plain_writev s iov = on_writev s (concat iov) s.writes

-- `read` into a buffer of `want` bytes; a longer answer is delivered in parts
unfoldable pub on_read : Socket → ℕ → List ReadCall → Option (ℤ × Bytes × Socket)
on_read s want [] = none
on_read s want (read_failed ∷ reads) = some (negsuc 0, [], record s { reads = reads })
on_read s want (got bytes ∷ reads) = some (
  pos (min want (length bytes)),
  take want bytes,
  record s { reads = if leb (length bytes) want then reads else got (drop want bytes) ∷ reads },
)

unfoldable pub plain_read : Socket → ℕ → Option (ℤ × Bytes × Socket)
unfolding on_read
plain_read s want = on_read s want s.reads
