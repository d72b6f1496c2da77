-- ===== src/Mime/Case.antt =====
-- The look-up of src/mime.c does not depend on the case of the name.
use local_marks.Prelude.{
  ℕ, zero, suc, ◌<◌, ◌≡◌, refl, ap, ◌∙◌, Bool, true, false, Option, none, some, List, [], ◌∷◌, map,
  ◌==◌, if◌then◌else◌, length, drop, arith, length-map,
}
use mathlib.Core.Option
use local_marks.Prelude.Bytes.{Bytes, to_lower, strcasecmp_eq, strrchr}
use local_marks.Mime.{mime_map, octet_stream, find_mime, base_of, mime_from_path}

abbrev lower : Bytes → Bytes
lower s = map to_lower s

to_lower_same : (c : ℕ) → to_lower (to_lower c) ≡ to_lower c
unfolding to_lower
to_lower_same c = ground arith

lower_same : (s : Bytes) → lower (lower s) ≡ lower s
lower_same [] = refl
lower_same (c ∷ s) = rw (to_lower_same c, lower_same s) refl

-- a byte that is no letter is where it was
keeps_byte : (c x : ℕ) → c < b'A' → (to_lower x == c) ≡ (x == c)
unfolding to_lower
keeps_byte c x h = ground arith

strrchr-lower :
    (c : ℕ) (s : Bytes) → c < b'A' → strrchr c (lower s) ≡ Option.map lower (strrchr c s)
unfolding strrchr
strrchr-lower c [] h = refl
strrchr-lower c (x ∷ s) h =
    go (strrchr c s) (strrchr c (lower s)) (x == c) (to_lower x == c) (strrchr-lower c s h)
      (keeps_byte c x h)
  where
    go :
        (o o' : Option Bytes) (here here' : Bool)
        → o' ≡ Option.map lower o
        → here' ≡ here
        → (elim o' as (λ y. Option Bytes) [
          | some r ↦ some r
          | none ↦ if here' then some (to_lower x ∷ map to_lower s) else none
        ])
          ≡ Option.map lower (elim o as (λ y. Option Bytes) [
            | some r ↦ some r
            | none ↦ if here then some (x ∷ s) else none
          ])
    go none o' true here' e f = rw (e, f) refl
    go none o' false here' e f = rw (e, f) refl
    go (some r) o' here here' e f = rw e refl

strcasecmp_eq-lower : (a b : Bytes) → strcasecmp_eq (lower a) b ≡ strcasecmp_eq a b
unfolding strcasecmp_eq
strcasecmp_eq-lower a b = rw (lower_same a) refl

find_mime-lower :
    (dot : Bytes) (rows : List (Bytes × Bytes)) → find_mime (lower dot) rows ≡ find_mime dot rows
unfolding find_mime
find_mime-lower dot [] = refl
find_mime-lower dot ((ext, mime) ∷ rows) =
    rw (strcasecmp_eq-lower dot ext, find_mime-lower dot rows) refl

drop-lower : (n : ℕ) (s : Bytes) → drop n (lower s) ≡ lower (drop n s)
drop-lower zero s = refl
drop-lower (suc n) [] = refl
drop-lower (suc n) (c ∷ s) = drop-lower n s

base_of-lower : (path : Bytes) → base_of (lower path) ≡ lower (base_of path)
unfolding base_of
base_of-lower path = rw (base_of, strrchr-lower b'/' path (omega arith)) (go (strrchr b'/' path))
  where
    go :
        (o : Option Bytes)
        → (elim (Option.map lower o) as (λ y. Bytes) [
          | none ↦ lower path
          | some slash ↦ drop 1 slash
        ])
          ≡ lower (elim o as (λ y. Bytes) [ none ↦ path | some slash ↦ drop 1 slash ])
    go none = refl
    go (some slash) = drop-lower 1 slash

-- the type by the dot of a file name
abbrev by_dot : Bytes → Option Bytes → Bytes
by_dot base dot' = elim dot' [
  | none ↦ octet_stream
  | some dot ↦ if length dot == length base then octet_stream else find_mime dot mime_map
]

by_dot-lower :
    (base : Bytes) (o : Option Bytes) → by_dot (lower base) (Option.map lower o) ≡ by_dot base o
by_dot-lower base none = refl
by_dot-lower base (some dot) =
    rw (length-map dot to_lower, length-map base to_lower, find_mime-lower dot mime_map) refl

by_base-lower :
    (base : Bytes)
    → by_dot (lower base) (strrchr b'.' (lower base)) ≡ by_dot base (strrchr b'.' base)
by_base-lower base =
    ap (by_dot (lower base)) (strrchr-lower b'.' base (omega arith))
    ∙ by_dot-lower base (strrchr b'.' base)

-- A path has the MIME type of the same path in lower case, so the case of the extension does not matter.
pub mime_from_path_lower :
    (path : Bytes) → mime_from_path (some (map to_lower path)) ≡ mime_from_path (some path)
unfolding mime_from_path
mime_from_path_lower path =
    ap (λ base. by_dot base (strrchr b'.' base)) (base_of-lower path) ∙ by_base-lower (base_of path)
