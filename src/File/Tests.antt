-- ===== src/File/Tests.antt =====
-- Runs of src/file.c.
use local_marks.Prelude.{
  ℕ, zero, suc, ◌≡◌, refl, sym, true, none, some, [], ◌∷◌, get_or, replicate, get_or-replicate,
}
use local_marks.Prelude.Bytes.{Bytes, codes, split_at_byte, is_space}
use mathlib.Core.Path.{subst}
use local_marks.Prelude.Int.{ℤ, negsuc}
use local_marks.Http.{HttpRequest, blank_request}
use local_marks.Vfs.{VfsEntry, Slots}
use local_marks.Response.Framing.{BodyFits}
use local_marks.Http.Header.{
  parse_range, strtoll, strtoll_at, strtoll_signed, strtoll_or_minus_one, read_digits, is_digit,
  trim_start,
}
use local_marks.File.{entry_bytes, file_serve}
use local_marks.File.Range.{stored, from, between, last_bytes}
use local_marks.File.Serve.{IsSized, file_serve-BodyFits}

abbrev index : VfsEntry
index = record {
  file_path = codes "index.html";
  file_start = some (1 ∷ 2 ∷ 3 ∷ []);
  file_len = 3;
  content_hash = 7;
}

abbrev slots : Slots
slots = some index ∷ replicate 63 none

slots-IsSized : (i : ℕ) → IsSized (get_or slots i none)
slots-IsSized zero = unfold entry_bytes in refl
slots-IsSized (suc i) = subst IsSized (sym (get_or-replicate 63 i none)) tt

file_serve-BodyFits_example : BodyFits (file_serve slots blank_request true)
file_serve-BodyFits_example = file_serve-BodyFits slots blank_request true slots-IsSized

-- the last two bytes
abbrev partial : HttpRequest
partial = record blank_request { range_start = negsuc 1; range_end = negsuc 0 }

-- what the header parser stores for a range
stored_by_parser : Bytes → ℤ × ℤ
unfolding parse_range split_at_byte strtoll strtoll_at strtoll_signed strtoll_or_minus_one
    read_digits is_digit trim_start is_space
stored_by_parser range = let r = parse_range range blank_request in (r.range_start, r.range_end)

stored_ranges :
    (stored_by_parser (codes "5-") ≡ stored (from 5))
    × (stored_by_parser (codes "5-9") ≡ stored (between 5 9))
    × (stored_by_parser (codes "-0") ≡ stored (last_bytes 0))
    × (stored_by_parser (codes "-1") ≡ stored (last_bytes 1))
    × (stored_by_parser (codes "-500") ≡ stored (last_bytes 500))
unfolding stored_by_parser
stored_ranges = (refl, refl, refl, refl, refl)
