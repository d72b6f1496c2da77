-- ===== src/Mime.antt =====
-- src/mime.c: the MIME type of a file by its extension.
pub mod Case
mod Tests
use local_marks.Prelude.{Option, none, some, List, [], ◌∷◌, ◌==◌, if◌then◌else◌, length, drop}
use local_marks.Prelude.Bytes.{Bytes, codes, strrchr, strcasecmp_eq}

-- `mime_map` without its last row, the fallback
unfoldable pub mime_map : List (Bytes × Bytes)
mime_map =
    (codes ".html", codes "text/html; charset=utf-8")
    ∷ (codes ".htm", codes "text/html; charset=utf-8")
    ∷ (codes ".css", codes "text/css")
    ∷ (codes ".js", codes "application/javascript")
    ∷ (codes ".mjs", codes "application/javascript")
    ∷ (codes ".ts", codes "application/typescript")
    ∷ (codes ".json", codes "application/json")
    ∷ (codes ".xml", codes "application/xml")
    ∷ (codes ".png", codes "image/png")
    ∷ (codes ".jpg", codes "image/jpeg")
    ∷ (codes ".jpeg", codes "image/jpeg")
    ∷ (codes ".gif", codes "image/gif")
    ∷ (codes ".ico", codes "image/x-icon")
    ∷ (codes ".webp", codes "image/webp")
    ∷ (codes ".avif", codes "image/avif")
    ∷ (codes ".bmp", codes "image/bmp")
    ∷ (codes ".tiff", codes "image/tiff")
    ∷ (codes ".svg", codes "image/svg+xml")
    ∷ (codes ".woff", codes "font/woff")
    ∷ (codes ".woff2", codes "font/woff2")
    ∷ (codes ".ttf", codes "font/ttf")
    ∷ (codes ".otf", codes "font/otf")
    ∷ (codes ".mp3", codes "audio/mpeg")
    ∷ (codes ".ogg", codes "audio/ogg")
    ∷ (codes ".opus", codes "audio/opus")
    ∷ (codes ".wav", codes "audio/wav")
    ∷ (codes ".flac", codes "audio/flac")
    ∷ (codes ".aac", codes "audio/aac")
    ∷ (codes ".mp4", codes "video/mp4")
    ∷ (codes ".webm", codes "video/webm")
    ∷ (codes ".ogv", codes "video/ogg")
    ∷ (codes ".mov", codes "video/quicktime")
    ∷ (codes ".avi", codes "video/x-msvideo")
    ∷ (codes ".txt", codes "text/plain; charset=utf-8")
    ∷ (codes ".md", codes "text/plain; charset=utf-8")
    ∷ (codes ".csv", codes "text/csv; charset=utf-8")
    ∷ (codes ".pdf", codes "application/pdf")
    ∷ (codes ".zip", codes "application/zip")
    ∷ (codes ".gz", codes "application/gzip")
    ∷ (codes ".tar", codes "application/x-tar")
    ∷ (codes ".wasm", codes "application/wasm")
    ∷ []

abbrev pub octet_stream : Bytes
octet_stream = codes "application/octet-stream"

-- the walk of the table
unfoldable pub find_mime : Bytes → List (Bytes × Bytes) → Bytes
find_mime dot [] = octet_stream
find_mime dot ((ext, mime) ∷ rows) = if strcasecmp_eq dot ext then mime else find_mime dot rows

-- the file name: what follows the last slash, or all
unfoldable pub base_of : Bytes → Bytes
base_of path = elim (strrchr b'/' path) [ none ↦ path | some slash ↦ drop 1 slash ]

-- `dot == base` compares pointers into one string, so the lengths of what they point to.
unfoldable pub mime_from_path : Option Bytes → Bytes
mime_from_path none = octet_stream
mime_from_path (some path) = elim (strrchr b'.' (base_of path)) [
  | none ↦ octet_stream
  | some dot ↦ if length dot == length (base_of path) then octet_stream else find_mime dot mime_map
]
