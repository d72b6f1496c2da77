-- ===== src/File/Serve.antt =====
-- What `file_serve` answers: the bodies that it points to, and the statuses.
use local_marks.Prelude.{
  ℕ, zero, suc, ◌+◌, ◌%◌, ◌≡◌, inl, inr, Bool, Option, none, some, if◌then◌else◌, length, get_or,
  arith, Bool-cases,
}
use local_marks.Prelude.Bytes.{Bytes, codes, str_eq}
use local_marks.Http.{http_other, HttpRequest}
use local_marks.Hash.{fnv1a_str}
use local_marks.Vfs.{VfsEntry, Slots, vfs_hash_cap, lookup_from, vfs_lookup}
use local_marks.Response.{response_error}
use local_marks.Response.Framing.{BodyFits, response_error-BodyFits}
use local_marks.File.{
  Slice, whole, part, unsatisfiable, range_slice, build_etag, vfs_path, etag_matches, entry_bytes,
  serve_slice, serve_entry, serve_lookup, file_serve,
}
use local_marks.File.Range.{InFile, range_slice-InFile, file_body-length}

-- an entry whose length is that of its bytes
abbrev pub IsSized : Option VfsEntry → Type 0
IsSized none = Unit {0}
IsSized (some e) = e.file_len ≡ length (entry_bytes e)

pub lookup_from-IsSized :
    (slots : Slots) (path : Bytes) (idx left : ℕ)
    → ((i : ℕ) → IsSized (get_or slots i none))
    → IsSized (lookup_from slots path idx left)
unfolding lookup_from
lookup_from-IsSized slots path idx zero sized = tt
lookup_from-IsSized slots path idx (suc left) sized =
    go (get_or slots idx none) (sized idx)
      (lookup_from-IsSized slots path ((idx + 1) % vfs_hash_cap) left sized)
  where
    go :
        (o : Option VfsEntry)
        → IsSized o
        → IsSized (lookup_from slots path ((idx + 1) % vfs_hash_cap) left)
        → IsSized (elim o [
          | none ↦ none
          | some e ↦
              if str_eq e.file_path path
              then some e
              else lookup_from slots path ((idx + 1) % vfs_hash_cap) left
        ])
    go none h ih = tt
    go (some e) h ih = elim (Bool-cases (str_eq e.file_path path)) [
      | inl found ↦ rw found h
      | inr other ↦ rw other ih
    ]

serve_slice-BodyFits :
    (req : HttpRequest) (e : VfsEntry) (etag : Bytes) (keep_alive : Bool) (slice : Slice)
    → e.file_len ≡ length (entry_bytes e)
    → InFile e.file_len slice
    → BodyFits (serve_slice req e (entry_bytes e) etag keep_alive slice)
unfolding serve_slice
serve_slice-BodyFits req e etag keep_alive whole h k = omega arith
serve_slice-BodyFits req e etag keep_alive unsatisfiable h k = omega arith
serve_slice-BodyFits req e etag keep_alive (part first last) h (a, b, ea, eb, le, lt) =
    rw (ea, eb) (file_body-length (entry_bytes e) a b le (omega arith))

serve_lookup-BodyFits :
    (req : HttpRequest) (keep_alive : Bool) (o : Option VfsEntry)
    → IsSized o
    → BodyFits (serve_lookup req keep_alive o)
unfolding serve_lookup serve_entry
serve_lookup-BodyFits req keep_alive none h =
    response_error-BodyFits 404 (some (codes "File not found."))
serve_lookup-BodyFits req keep_alive (some e) h =
    elim (Bool-cases (etag_matches req.if_none_match (build_etag e.content_hash e.file_len))) [
      | inl matches ↦ rw matches (omega arith)
      | inr differs ↦ rw differs (
          serve_slice-BodyFits req e (build_etag e.content_hash e.file_len) keep_alive
            (range_slice e.file_len req.range_start req.range_end) h
            (range_slice-InFile e.file_len req.range_start req.range_end))
    ]

-- Whatever the request, the body that `file_serve` passes on has all the bytes that its Content-Length
-- promises, so the send reads no byte behind a file, if the entries of the table have the lengths of
-- their data.
pub file_serve-BodyFits :
    (slots : Slots) (req : HttpRequest) (keep_alive : Bool)
    → ((i : ℕ) → IsSized (get_or slots i none))
    → BodyFits (file_serve slots req keep_alive)
unfolding file_serve vfs_lookup
file_serve-BodyFits slots req keep_alive sized =
    elim req.method
      as (λ m. BodyFits (elim m [
        | http_other ↦ response_error 405 (some (codes "Only GET and HEAD are supported."))
        | supported ↦ serve_lookup req keep_alive (vfs_lookup slots (vfs_path req.path))
      ])) [
        | http_other ↦ response_error-BodyFits 405 (some (codes "Only GET and HEAD are supported."))
        | supported ↦
            serve_lookup-BodyFits req keep_alive
              (lookup_from slots (vfs_path req.path) (fnv1a_str (vfs_path req.path) % vfs_hash_cap)
                vfs_hash_cap)
              (lookup_from-IsSized slots (vfs_path req.path)
                (fnv1a_str (vfs_path req.path) % vfs_hash_cap) vfs_hash_cap sized)
      ]
