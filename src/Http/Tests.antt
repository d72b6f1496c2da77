-- ===== src/Http/Tests.antt =====
-- Runs of src/http.c.
use local_marks.Http.Fits.{FitsArrays}
use local_marks.Http.Arrays.{http_parse_request-FitsArrays}
use local_marks.Prelude.{none, refl, ◌≡◌, true, List, [], ◌∷◌, ◌++◌, arith}
use local_marks.Prelude.Bytes.{Bytes, codes}
use local_marks.Http.Url.{http_url_decode, url_encode, url_decode-encode}
use local_marks.Http.Read.{find_blank_line, read_headers, total_length}
use local_marks.Http.Parse.{http_parse_request}
use local_marks.Http.Progress.{ReadOff, read_headers-ReadOff}
use local_marks.Http.Stream.{stream, Reads, read_headers-Reads}
use local_marks.Http.Safety.{SafeIfAccepted}
use local_marks.Http.Accepted.{http_parse_request-safe}

-- a request in two segments
abbrev segments : List Bytes
segments =
    (codes "GET /a%20b HTTP/1.1" ++ 13 ∷ 10 ∷ codes "Host: x" ++ 13 ∷ []) ∷ (10 ∷ 13 ∷ 10 ∷ []) ∷ []

url_decode-encode_example : http_url_decode 16 (url_encode (codes "a/b c")) ≡ codes "a/b c"
url_decode-encode_example = url_decode-encode 16 (codes "a/b c") (omega arith) (omega arith)

read_headers-ReadOff_example : ReadOff 64 (total_length segments) (read_headers 64 segments)
read_headers-ReadOff_example = read_headers-ReadOff 64 segments (omega arith)

http_parse_request-safe_example : SafeIfAccepted (http_parse_request true segments).0
http_parse_request-safe_example = http_parse_request-safe true segments

read_headers-Reads_example : Reads 64 (stream segments) (read_headers 64 segments)
read_headers-Reads_example = read_headers-Reads 64 segments

-- a blank line across two chunks
abbrev half : Bytes
half = 88 ∷ 13 ∷ 10 ∷ 13 ∷ []

half_quiet : find_blank_line 0 half ≡ none
unfolding find_blank_line
half_quiet = refl

http_parse_request-FitsArrays_example : FitsArrays (http_parse_request true segments).0.1
http_parse_request-FitsArrays_example = http_parse_request-FitsArrays true segments
