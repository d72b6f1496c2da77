-- ===== src/Response.antt =====
-- src/header_cache.c and src/response.c: the response header and the error page. The Date line comes
-- from the clock and is an argument. A format with one `%s` or `%d` for another is a concatenation.
pub mod Framing
mod Tests
use local_marks.Prelude.{
  ℕ, zero, suc, ◌+◌, ◌-◌, ◌*◌, ◌/◌, ◌%◌, ◌^◌, ◌≤◌, ◌<◌, ◌≡◌, ◌≢◌, ◌↔◌, ◌⊎◌, inl, inr, refl, sym, ap,
  ◌∙◌, Bool, true, false, not, ◌&&◌, ◌||◌, Option, none, some, List, [], ◌∷◌, ◌++◌, map, append-nil,
  append_assoc, min, ltb, leb, ◌==◌, if◌then◌else◌, length, get_or, get_elem?, set, replicate, take,
  drop, arith, tests, All, All-get, All-set, All-append, All-replicate, length-set, length-map,
  length-append, length-replicate, length-take, length-take-le, length-drop, take_of_le,
  get_or-set_self, get_or-set_ne, get_or-replicate, Option-cases, Bool-cases, ==_iff, ltb→lt,
  lt→ltb, leb→le,
}
use local_marks.Prelude.Bytes.{Bytes, codes, dec, snprintf_s}
use local_marks.Status.{error_find_status_text}

abbrev pub crlf : Bytes
crlf = 13 ∷ 10 ∷ []

-- `hc_server`
unfoldable pub header_cache_server : Bytes
header_cache_server = codes "Server: local-mark/1.1.0" ++ crlf

unfoldable pub header_cache_conn : Bool → Bytes
header_cache_conn keep_alive =
    (if keep_alive then codes "Connection: keep-alive" else codes "Connection: close") ++ crlf

-- `header_cache_date_copy`: the cached line, refreshed when the second has changed. The state is the
-- line and the second it is of; `format` is `strftime`. None is the -1 of a buffer that is too small.
pub record DateCache : Type 0 where
  pub hc_date : Bytes
  pub last_update : ℕ

unfoldable pub header_cache_date_copy : (ℕ → Bytes) → ℕ → DateCache → ℕ → Option Bytes × DateCache
header_cache_date_copy format now cache buf_len =
    let cache' =
      if now == cache.last_update
      then cache
      else record { hc_date = format now; last_update = now } in
    ((if leb buf_len (length cache'.hc_date) then none else some cache'.hc_date), cache')

-- the text that `header_cache_build` prints, before it is cut to the buffer
unfoldable pub header_text : Bytes → ℕ → Bytes → Option Bytes → ℕ → Option Bytes → Bool → Bytes
header_text date status status_text content_type content_length extra_headers keep_alive =
    codes "HTTP/1.1 "
    ++ dec status
    ++ codes " "
    ++ status_text
    ++ crlf
    ++ date
    ++ header_cache_server
    ++ elim content_type [ none ↦ [] | some mime ↦ codes "Content-Type: " ++ mime ++ crlf ]
    ++ codes "Content-Length: "
    ++ dec content_length
    ++ crlf
    ++ elim extra_headers [ none ↦ [] | some extra ↦ extra ]
    ++ header_cache_conn keep_alive
    ++ crlf

-- none is the -1 of a header that does not fit
unfoldable pub header_cache_build :
    ℕ → Bytes → ℕ → Bytes → Option Bytes → ℕ → Option Bytes → Bool → Option Bytes
header_cache_build buf_len date status status_text content_type content_length extra_headers
      keep_alive =
    let t =
      header_text date status status_text content_type content_length extra_headers keep_alive in
    if leb buf_len (length t) then none else some t

-- the arguments of a call of `response_send`; `body` is what the pointer points to, cut at `body_len`
pub record Response : Type 0 where
  pub status : ℕ
  pub status_text : Bytes
  pub mime : Option Bytes
  pub extra_hdrs : Option Bytes
  pub body : Option Bytes
  pub body_len : ℕ
  pub keep_alive : Bool
  pub send_body : Bool

-- what `response_send` hands to the transport
pub data Sent : Type 0 where
  nothing : Sent
  write : Bytes → Sent
  writev : Bytes → Bytes → Sent

unfoldable pub send_with : Response → Option Bytes → Sent
send_with r none = nothing
send_with r (some hdr) = elim r.body [
  | none ↦ write hdr
  | some body ↦
      if r.send_body && ltb 0 r.body_len then writev hdr (take r.body_len body) else write hdr
]

unfoldable pub response_send : Bytes → Response → Sent
response_send date r = send_with r (
    header_cache_build 4096 date r.status r.status_text r.mime r.body_len r.extra_hdrs r.keep_alive)

unfoldable pub page_head : Bytes
page_head =
    codes "<!DOCTYPE html><html lang='en'><head><meta charset='utf-8'><meta name='viewport' con"
    ++ codes "tent='width=device-width, initial-scale=1'><title>"

unfoldable pub page_space : Bytes
page_space = codes " "

unfoldable pub page_style : Bytes
page_style =
    codes "</title><style>:root {--bg: #ffffff;--text: #222222;--muted: #555555;--accent: #0066"
    ++ codes "cc;--border: #cccccc;}body.dark {--bg: #1a1a1a;--text: #dddddd;--muted: #aaaaaa;--ac"
    ++ codes "cent: #66aaff;--border: #444444;}* { box-sizing: border-box; margin: 0; padding: 0; "
    ++ codes "}body {font-family: Arial, Helvetica, sans-serif;background: var(--bg);color: var(--"
    ++ codes "text);min-height: 100vh;display: flex;justify-content: center;align-items: center;pa"
    ++ codes "dding: 20px;}.card {width: 100%;max-width: 600px;background: var(--bg);border: 1px s"
    ++ codes "olid var(--border);padding: 30px;}.code {font-size: 2.5rem;font-weight: bold;color: "
    ++ codes "var(--accent);}.title {margin-top: 10px;font-size: 1.3rem;font-weight: bold;}.detail"
    ++ codes " {margin-top: 12px;color: var(--muted);line-height: 1.5;}.footer {margin-top: 24px;p"
    ++ codes "adding-top: 14px;border-top: 1px solid var(--border);color: var(--muted);font-size: "
    ++ codes "0.85rem;}</style><script>function updateTheme() {const dark = window.matchMedia('(pr"
    ++ codes "efers-color-scheme: dark)').matches;document.body.classList.toggle('dark', dark);}wi"
    ++ codes "ndow.addEventListener('DOMContentLoaded', updateTheme);window.matchMedia('(prefers-c"
    ++ codes "olor-scheme: dark)').addEventListener('change', updateTheme);</script></head><body><"
    ++ codes "div class='card'><div class='code'>"

unfoldable pub page_title : Bytes
page_title = codes "</div><div class='title'>"

unfoldable pub page_detail : Bytes
page_detail = codes "</div><div class='detail'>"

unfoldable pub page_foot : Bytes
page_foot = codes "</div><div class='footer'>local-mark/1.1.0</div></div></body></html>"

-- the page that `response_error` prints
unfoldable pub error_page : ℕ → Bytes → Option Bytes → Bytes
error_page status status_text detail =
    page_head
    ++ dec status
    ++ page_space
    ++ status_text
    ++ page_style
    ++ dec status
    ++ page_title
    ++ status_text
    ++ page_detail
    ++ elim detail [ none ↦ codes "An unexpected error occurred." | some d ↦ d ]
    ++ page_foot

-- The page is cut to a buffer of 4096 bytes, and its length with it.
unfoldable pub response_error : ℕ → Option Bytes → Response
response_error status detail =
    let text = error_find_status_text status in
    let page = error_page status text detail in
    record {
      status = status;
      status_text = text;
      mime = some (codes "text/html; charset=utf-8");
      extra_hdrs = none;
      body = some (snprintf_s 4096 page);
      body_len = if leb 4096 (length page) then 4095 else length page;
      keep_alive = false;
      send_body = true;
    }
