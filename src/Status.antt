-- ===== src/Status.antt =====
-- src/error.c: the table of HTTP status codes.
use local_marks.Prelude.{ℕ, ◌&&◌, Option, none, some, List, [], ◌∷◌, leb, ◌==◌, if◌then◌else◌}
use local_marks.Prelude.Bytes.{Bytes, codes}

pub record StatusRow : Type 0 where
  pub status : ℕ
  pub code : Bytes
  pub status_text : Bytes

-- `error_table`; an index that is not listed is a row of NULLs
abbrev row : ℕ → Bytes → Bytes → StatusRow
row status code text = record { status = status; code = code; status_text = text }

unfoldable pub error_table : List StatusRow
error_table =
    row 100 (codes "CONTINUE") (codes "Continue")
    ∷ row 101 (codes "SWITCHING_PROTOCOLS") (codes "Switching Protocols")
    ∷ row 102 (codes "PROCESSING") (codes "Processing")
    ∷ row 103 (codes "EARLY_HINTS") (codes "Early Hints")
    ∷ row 200 (codes "OK") (codes "OK")
    ∷ row 201 (codes "CREATED") (codes "Created")
    ∷ row 202 (codes "ACCEPTED") (codes "Accepted")
    ∷ row 203 (codes "NON_AUTHORITATIVE_INFORMATION") (codes "Non-Authoritative Information")
    ∷ row 204 (codes "NO_CONTENT") (codes "No Content")
    ∷ row 205 (codes "RESET_CONTENT") (codes "Reset Content")
    ∷ row 206 (codes "PARTIAL_CONTENT") (codes "Partial Content")
    ∷ row 207 (codes "MULTI_STATUS") (codes "Multi-Status")
    ∷ row 208 (codes "ALREADY_REPORTED") (codes "Already Reported")
    ∷ row 226 (codes "IM_USED") (codes "IM Used")
    ∷ row 301 (codes "MOVED_PERMANENTLY") (codes "Moved Permanently")
    ∷ row 302 (codes "FOUND") (codes "Found")
    ∷ row 303 (codes "SEE_OTHER") (codes "See Other")
    ∷ row 300 (codes "MULTIPLE_CHOICES") (codes "Multiple Choices")
    ∷ row 304 (codes "NOT_MODIFIED") (codes "Not Modified")
    ∷ row 305 (codes "USE_PROXY") (codes "Use Proxy")
    ∷ row 307 (codes "TEMPORARY_REDIRECT") (codes "Temporary Redirect")
    ∷ row 308 (codes "PERMANENT_REDIRECT") (codes "Permanent Redirect")
    ∷ row 400 (codes "BAD_REQUEST") (codes "Bad Request")
    ∷ row 401 (codes "UNAUTHORIZED") (codes "Unauthorized")
    ∷ row 402 (codes "PAYMENT_REQUIRED") (codes "Payment Required")
    ∷ row 403 (codes "FORBIDDEN") (codes "Forbidden")
    ∷ row 404 (codes "NOT_FOUND") (codes "Not Found")
    ∷ row 405 (codes "METHOD_NOT_ALLOWED") (codes "Method Not Allowed")
    ∷ row 406 (codes "NOT_ACCEPTABLE") (codes "Not Acceptable")
    ∷ row 407 (codes "PROXY_AUTHENTICATION_REQUIRED") (codes "Proxy Authentication Required")
    ∷ row 408 (codes "REQUEST_TIMEOUT") (codes "Request Timeout")
    ∷ row 409 (codes "CONFLICT") (codes "Conflict")
    ∷ row 410 (codes "GONE") (codes "Gone")
    ∷ row 411 (codes "LENGTH_REQUIRED") (codes "Length Required")
    ∷ row 412 (codes "PRECONDITION_FAILED") (codes "Precondition Failed")
    ∷ row 413 (codes "PAYLOAD_TOO_LARGE") (codes "Payload Too Large")
    ∷ row 414 (codes "URI_TOO_LONG") (codes "URI Too Long")
    ∷ row 415 (codes "UNSUPPORTED_MEDIA_TYPE") (codes "Unsupported Media Type")
    ∷ row 416 (codes "RANGE_NOT_SATISFIABLE") (codes "Range Not Satisfiable")
    ∷ row 417 (codes "EXPECTATION_FAILED") (codes "Expectation Failed")
    ∷ row 418 (codes "IM_A_TEAPOT") (codes "I'm a Teapot")
    ∷ row 421 (codes "MISDIRECTED_REQUEST") (codes "Misdirected Request")
    ∷ row 422 (codes "UNPROCESSABLE_CONTENT") (codes "Unprocessable Content")
    ∷ row 423 (codes "LOCKED") (codes "Locked")
    ∷ row 424 (codes "FAILED_DEPENDENCY") (codes "Failed Dependency")
    ∷ row 425 (codes "TOO_EARLY") (codes "Too Early")
    ∷ row 426 (codes "UPGRADE_REQUIRED") (codes "Upgrade Required")
    ∷ row 428 (codes "PRECONDITION_REQUIRED") (codes "Precondition Required")
    ∷ row 429 (codes "TOO_MANY_REQUESTS") (codes "Too Many Requests")
    ∷ row 431 (codes "REQUEST_HEADER_FIELDS_TOO_LARGE") (codes "Request Header Fields Too Large")
    ∷ row 451 (codes "UNAVAILABLE_FOR_LEGAL_REASONS") (codes "Unavailable For Legal Reasons")
    ∷ row 500 (codes "INTERNAL_SERVER_ERROR") (codes "Internal Server Error")
    ∷ row 501 (codes "NOT_IMPLEMENTED") (codes "Not Implemented")
    ∷ row 502 (codes "BAD_GATEWAY") (codes "Bad Gateway")
    ∷ row 503 (codes "SERVICE_UNAVAILABLE") (codes "Service Unavailable")
    ∷ row 504 (codes "GATEWAY_TIMEOUT") (codes "Gateway Timeout")
    ∷ row 505 (codes "HTTP_VERSION_NOT_SUPPORTED") (codes "HTTP Version Not Supported")
    ∷ row 506 (codes "VARIANT_ALSO_NEGOTIATES") (codes "Variant Also Negotiates")
    ∷ row 507 (codes "INSUFFICIENT_STORAGE") (codes "Insufficient Storage")
    ∷ row 508 (codes "LOOP_DETECTED") (codes "Loop Detected")
    ∷ row 510 (codes "NOT_EXTENDED") (codes "Not Extended")
    ∷ row 511 (codes "NETWORK_AUTHENTICATION_REQUIRED") (codes "Network Authentication Required")
    ∷ []

unfoldable pub find_row : ℕ → List StatusRow → Option StatusRow
find_row status [] = none
find_row status (r ∷ rs) = if r.status == status then some r else find_row status rs

unfoldable pub error_find_code : ℕ → Bytes
error_find_code status =
    if leb 100 status && leb status 511
    then elim (find_row status error_table) [
      | some r ↦ r.code
      | none ↦ codes "INTERNAL_SERVER_ERROR"
    ]
    else codes "INTERNAL_SERVER_ERROR"

unfoldable pub error_find_status_text : ℕ → Bytes
error_find_status_text status =
    if leb 100 status && leb status 511
    then elim (find_row status error_table) [
      | some r ↦ r.status_text
      | none ↦ codes "Internal Server Error"
    ]
    else codes "Internal Server Error"
