-- ===== src/Response/Framing.antt =====
-- What src/response.c sends against what it announces.
use local_marks.Prelude.{
  ℕ, zero, suc, ◌+◌, ◌≤◌, ◌≡◌, inl, inr, refl, sym, Bool, true, false, ◌&&◌, Option, none, some, [],
  ◌++◌, append-nil, ◌∙◌, ltb, leb, if◌then◌else◌, length, take, arith, length-take, Bool-cases,
}
use local_marks.Prelude.Bytes.{Bytes, codes, dec}
use local_marks.Response.{
  Response, Sent, nothing, write, writev, header_text, header_cache_build, send_with, response_send,
  error_page, response_error, crlf, header_cache_server, header_cache_conn,
}
use local_marks.Status.{error_find_status_text}

-- the bytes of a body; a NULL has none
abbrev pub body_bytes : Option Bytes → Bytes
body_bytes none = []
body_bytes (some body) = body

-- the body has the bytes that the length promises
abbrev pub BodyFits : Response → Type 0
BodyFits r = r.body_len ≤ length (body_bytes r.body)

-- the length is that of the body
abbrev pub IsWhole : Response → Type 0
IsWhole r = r.body_len ≡ length (body_bytes r.body)

cut-length :
    (n : ℕ) (page : Bytes)
    → (if leb (n + 1) (length page) then n else length page) ≡ length (take n page)
cut-length n page = ground (arith, length-take n page)

-- The error page has exactly the length that the header of `response_error` announces, also when the
-- page is cut at 4095 bytes.
pub response_error-page :
    (status : ℕ) (detail : Option Bytes) → IsWhole (response_error status detail)
unfolding response_error
response_error-page status detail =
    cut-length 4095 (error_page status (error_find_status_text status) detail)

pub response_error-BodyFits :
    (status : ℕ) (detail : Option Bytes) → BodyFits (response_error status detail)
response_error-BodyFits status detail = omega (arith, response_error-page status detail)

-- the header of a response
abbrev pub header_of : Bytes → Response → Bytes
header_of date r =
    header_text date r.status r.status_text r.mime r.body_len r.extra_hdrs r.keep_alive

-- what stands before the value of Content-Length in a header
abbrev pub before_length : Bytes → Response → Bytes
before_length date r =
    codes "HTTP/1.1 "
    ++ dec r.status
    ++ codes " "
    ++ r.status_text
    ++ crlf
    ++ date
    ++ header_cache_server
    ++ elim r.mime [ none ↦ [] | some mime ↦ codes "Content-Type: " ++ mime ++ crlf ]
    ++ codes "Content-Length: "

-- the message for a response with this body: its header announces the length of the body, which is left
-- out for HEAD
abbrev pub message : Bytes → Response → Bytes → Bytes
message date r body =
    before_length date r
    ++ dec (length body)
    ++ crlf
    ++ elim r.extra_hdrs [ none ↦ [] | some extra ↦ extra ]
    ++ header_cache_conn r.keep_alive
    ++ crlf
    ++ (if r.send_body then body else [])

-- the bytes of the body that go out
abbrev pub sent_body : Response → Bytes
sent_body r = if r.send_body then take r.body_len (body_bytes r.body) else []

-- the bytes that go out
abbrev pub sent_bytes : Sent → Bytes
sent_bytes nothing = []
sent_bytes (write hdr) = hdr
sent_bytes (writev hdr body) = hdr ++ body

take_none : (n : ℕ) → take {A = ℕ} n [] ≡ []
take_none zero = refl
take_none (suc n) = refl

append_nothing :
    (hdr : Bytes) (send_body : Bool) (n : ℕ) → hdr ≡ hdr ++ (if send_body then take n [] else [])
append_nothing hdr true n = rw (take_none n) (sym (append-nil hdr))
append_nothing hdr false n = sym (append-nil hdr)

-- the three cases of the choice between one piece and two
pieces :
    (hdr body : Bytes) (send_body : Bool) (n : ℕ)
    → sent_bytes (if send_body && ltb 0 n then writev hdr (take n body) else write hdr)
      ≡ hdr ++ (if send_body then take n body else [])
pieces hdr body true zero = sym (append-nil hdr)
pieces hdr body true (suc n) = ground arith
pieces hdr body false n = sym (append-nil hdr)

send_with-bytes :
    (r : Response) (hdr : Bytes) → sent_bytes (send_with r (some hdr)) ≡ hdr ++ sent_body r
unfolding send_with
send_with-bytes r hdr = go r.body
  where
    go :
        (body : Option Bytes)
        → sent_bytes (elim body [
          | none ↦ write hdr
          | some body' ↦
              if r.send_body && ltb 0 r.body_len
              then writev hdr (take r.body_len body')
              else write hdr
        ])
          ≡ hdr ++ (if r.send_body then take r.body_len (body_bytes body) else [])
    go none = append_nothing hdr r.send_body r.body_len
    go (some body) = pieces hdr body r.send_body r.body_len

-- the body in full
abbrev pub announced : Response → Bytes
announced r = take r.body_len (body_bytes r.body)

announced-length : (r : Response) → BodyFits r → length (announced r) ≡ r.body_len
announced-length r fits = omega (arith, length-take r.body_len (body_bytes r.body))

header_of-message :
    (date : Bytes) (r : Response)
    → BodyFits r
    → header_of date r ++ sent_body r ≡ message date r (announced r)
unfolding header_text
header_of-message date r fits = rw (announced-length r fits) refl

-- `response_send` sends nothing if the header does not fit its buffer of 4096 bytes; else it sends one
-- message: the status line, the lines of the header with, in decimal, the length of the body that
-- the caller passed, the empty line, and then that body in full, or nothing if it is to be left out,
-- provided that the body has the bytes that the caller promised.
pub response_send-bytes :
    (date : Bytes) (r : Response)
    → BodyFits r
    → sent_bytes (response_send date r)
      ≡ (if leb 4096 (length (header_of date r)) then [] else message date r (announced r))
unfolding response_send header_cache_build
response_send-bytes date r fits = elim (Bool-cases (leb 4096 (length (header_of date r)))) [
  | inl long ↦ rw long (unfold send_with in refl)
  | inr short ↦ rw short (send_with-bytes r (header_of date r) ∙ header_of-message date r fits)
]
