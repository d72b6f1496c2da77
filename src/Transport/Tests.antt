-- ===== src/Transport/Tests.antt =====
-- Runs of the transport, and its theorems at concrete inputs.
use local_marks.Prelude.{
  replicate, suc, ◌≡◌, refl, sym, ap, Bool, true, false, some, [], ◌∷◌, ◌++◌, length, arith,
  take_of_le,
}
use local_marks.Prelude.Bytes.{Bytes, codes}
use local_marks.Prelude.Int.{ℤ, pos}
use local_marks.Transport.{
  got, wrote, interrupted, write_failed, Socket, Wrote, plain_write, plain_writev, concat,
  write_some, write_loop, on_writev,
}
use local_marks.Transport.Write.{Splits, takes, plain_write-Splits, plain_write-full}
use local_marks.Transport.Tls.{
  TlsLibrary, transport_tls_handshake, tls_transport_write, write_chunks,
}
use local_marks.Transport.Ops.{tls_writev}
use local_marks.Transport.Secure.{Establishes, transport_tls_handshake-Establishes}
use local_marks.Transport.Feed.{
  Feeds, WritesAll, tls_transport_write-WritesAll, tls_writev-WritesAll,
}

-- EINTR, a part of the bytes, then the rest
abbrev socket : Socket
socket = record {
  reads = got (codes "hello") ∷ [];
  writes = interrupted ∷ wrote 2 ∷ wrote 9 ∷ [];
  sent = [];
}

abbrev broken : Socket
broken = record { reads = []; writes = wrote 2 ∷ write_failed ∷ []; sent = [] }

broken_write :
    plain_write broken (codes "abc")
    ≡ some (pos 2, record { reads = []; writes = []; sent = codes "ab" })
unfolding plain_write write_some write_loop
broken_write = refl

plain_write-Splits_example :
    (w : Wrote) × Splits broken.writes [] (codes "abc") w
    × (pos 2 ≡ pos (length w.sent))
    × (codes "ab" ≡ [] ++ w.sent)
plain_write-Splits_example = plain_write-Splits broken (codes "abc") broken_write

plain_write-full_example :
    (s' : Socket) × (plain_write
        (record { reads = []; writes = interrupted ∷ wrote 1 ∷ wrote 2 ∷ []; sent = [] })
        (codes "ab")
      ≡ some (pos 2, s'))
    × (s'.sent ≡ [] ++ codes "ab")
plain_write-full_example =
    plain_write-full
      (record { reads = []; writes = interrupted ∷ wrote 1 ∷ wrote 2 ∷ []; sent = [] }) (codes "ab")
      (tt, (tt, (tt, tt))) (unfold takes in omega arith)

-- `writev` is called once: what the kernel does not take is not sent
short_writev :
    plain_writev
      (record { reads = []; writes = wrote 3 ∷ []; sent = [] })
      (codes "ab" ∷ codes "cd" ∷ [])
    ≡ some (pos 3, record { reads = []; writes = []; sent = codes "abc" })
unfolding plain_writev on_writev concat
short_writev = refl

-- A context that is established by the first bytes it reads, takes what it is offered, and queues it
-- for the socket as it is.
pub record Echo : Type 0 where
  pub up : Bool
  pub plain : Bytes
  pub queue : Bytes

echo_takes : Echo → Bytes → ℤ × Echo
echo_takes c src = (pos (length src), record c { plain = c.plain ++ src; queue = c.queue ++ src })

abbrev echo : TlsLibrary Echo
echo = record {
  tls_accept = some;
  tls_established = λ c. c.up;
  tls_consume_stream = λ c bytes. (pos 0, record c { up = true });
  tls_get_write_buffer = λ c. some c.queue;
  tls_buffer_clear = λ c. record c { queue = [] };
  tls_write = echo_takes;
  tls_read = λ c want. (pos 0, [], c);
  tls_pending = λ c. 0;
  generic_error = λ rc. false;
  broken_packet = λ rc. false;
  need_more_data = λ rc. false;
}

echo-Feeds : Feeds echo (λ c. c.plain)
unfolding echo_takes
echo-Feeds = record {
  takes_some = λ ctx src n e.
      let same : length src ≡ suc n = ground arith in
      (omega arith, ap (λ l. ctx.plain ++ l) (sym (take_of_le (suc n) src (omega arith))));
  clears = λ ctx. refl;
}

abbrev fresh_ctx : Echo
fresh_ctx = record { up = false; plain = []; queue = [] }

-- a peer with more to say than the rounds read
abbrev chatty : Socket
chatty = record { reads = replicate 25 (got (codes "hello")); writes = []; sent = [] }

transport_tls_handshake-Establishes_example :
    Establishes echo 20 chatty (transport_tls_handshake echo fresh_ctx chatty)
transport_tls_handshake-Establishes_example =
    transport_tls_handshake-Establishes echo fresh_ctx chatty

tls_transport_write-WritesAll_example :
    WritesAll echo
      (λ c. c.plain)
      echo-Feeds
      (codes "hi")
      2
      (tls_transport_write echo fresh_ctx socket (codes "hi"))
    × (write_chunks echo 5 fresh_ctx socket (codes "hi")
        ≡ write_chunks echo 2 fresh_ctx socket (codes "hi"))
tls_transport_write-WritesAll_example =
    tls_transport_write-WritesAll echo (λ c. c.plain) echo-Feeds fresh_ctx socket (codes "hi") 5
      (omega arith)

tls_writev-WritesAll_example :
    WritesAll echo
      (λ c. c.plain)
      echo-Feeds
      ([] ++ concat (codes "hi" ∷ codes "there" ∷ []))
      (length (concat (codes "hi" ∷ codes "there" ∷ [])))
      (tls_writev echo (codes "hi" ∷ codes "there" ∷ []) fresh_ctx socket 0)
tls_writev-WritesAll_example =
    tls_writev-WritesAll echo (λ c. c.plain) echo-Feeds (codes "hi" ∷ codes "there" ∷ []) fresh_ctx
      socket
