-- ===== src/Http/Parse.antt =====
-- `http_parse_request` of src/http.c.
use local_marks.Prelude.{
  ℕ, zero, suc, ◌-◌, Bool, true, false, not, none, some, List, [], ◌∷◌, if◌then◌else◌, length, drop,
}
use local_marks.Prelude.Bytes.{Bytes, strstr, c_str}
use local_marks.Http.{HttpRequest, blank_request}
use local_marks.Http.Line.{parse_request_line}
use local_marks.Http.Header.{parse_header}
use local_marks.Http.Read.{read_headers}

abbrev pub http_raw_buf_size : ℕ
http_raw_buf_size = 8192

-- the line at the start of a text, and the text behind its CR LF (or its end)
unfoldable pub next_line : Bytes → Bytes × Bytes
next_line text = elim (strstr (13 ∷ 10 ∷ []) text) [
  | none ↦ (text, [])
  | some (line, at) ↦ (line, drop 2 at)
]

-- the lines behind the request line; every round takes a byte at least, so the length is fuel enough
unfoldable pub parse_headers : ℕ → Bytes → HttpRequest → HttpRequest
parse_headers fuel [] r = r
parse_headers zero (c ∷ text) r = r
parse_headers (suc fuel) (c ∷ text) r =
    let (line, next) = next_line (c ∷ text) in
    parse_headers fuel next (elim line [ [] ↦ r | header ↦ parse_header header r ])

-- the loop `while (*line)`: the first line is the request line
unfoldable pub parse_lines : Bytes → HttpRequest → Bool × HttpRequest
parse_lines [] r = (true, r)
parse_lines (c ∷ text) r =
    let (line, next) = next_line (c ∷ text) in
    let (well_formed, r') = parse_request_line line r in
    if well_formed then (true, parse_headers (length next) next r') else (false, r')

-- The flag is false for a -1; then the request is what the code leaves in `*out`.
unfoldable pub http_parse_request : Bool → List Bytes → (Bool × HttpRequest) × List Bytes
http_parse_request malloc_ok segments =
    if not malloc_ok
    then ((false, blank_request), segments)
    else elim (read_headers (http_raw_buf_size - 1) segments) [
      | none ↦ ((false, blank_request), [])
      | some (raw, segments') ↦ (
        parse_lines (c_str raw) (record blank_request { raw = some raw; raw_len = length raw }),
        segments',
      )
    ]
