-- ===== src/Auth/Check.antt =====
-- Who gets in: `auth_check` decides whether the header encodes the configured credentials.
use local_marks.Prelude.{
  ℕ, ◌+◌, ◌<◌, ◌≡◌, ◌↔◌, inl, inr, refl, true, ◌||◌, Option, none, some, [], ◌∷◌, ◌++◌, length,
  drop, arith, All, All-append, length-append, Bool-cases,
}
use local_marks.Prelude.Bytes.{
  Bytes, codes, str_eq_of, str_eq_refl, starts_with_nocase, split_at_byte, split_at_byte-append,
  c_str, c_str_clean, HasNo-append, HasNo, split_at_byte-first,
}
use local_marks.Auth.{
  Decoded, text, invalid, no_fuel, b64_decode, skip_spaces, is_set, or_empty, credentials_match,
  auth_check,
}
use local_marks.Auth.Base64.{b64_encode, decode-encode, IsByte}

credentials_match_sound :
    (user pass decoded : Bytes)
    → credentials_match user pass decoded ≡ true
    → c_str decoded ≡ user ++ b':' ∷ pass
unfolding credentials_match
credentials_match_sound user pass decoded h = go (split_at_byte b':' (c_str decoded)) refl
  where
    go :
        (o : Option (Bytes × Bytes))
        → split_at_byte b':' (c_str decoded) ≡ o
        → c_str decoded ≡ user ++ b':' ∷ pass
    go none e = ground arith
    go (some (a, b)) e =
        ground
          (arith, split_at_byte-append b':' (c_str decoded) e, str_eq_of a user, str_eq_of b pass)

credentials_match_complete :
    (user pass decoded : Bytes)
    → HasNo b':' user
    → c_str decoded ≡ user ++ b':' ∷ pass
    → credentials_match user pass decoded ≡ true
unfolding credentials_match
credentials_match_complete user pass decoded clean e =
    let parts : split_at_byte b':' (c_str decoded) ≡ some (user, pass) =
      rw e (split_at_byte-first b':' user pass clean) in
    ground (arith, str_eq_refl user, str_eq_refl pass)

-- what a header must be to be let in
abbrev pub Authorises : Bytes → Bytes → Bytes → Type 0
Authorises user pass hdr =
    (starts_with_nocase (codes "Basic ") hdr ≡ true)
    × (decoded : Bytes) × (b64_decode (skip_spaces (drop 6 hdr)) 512 ≡ text decoded)
    × (c_str decoded ≡ user ++ b':' ∷ pass)

module _ (hdr : Bytes) (user pass : Option Bytes)
    (configured : is_set user || is_set pass ≡ true) where
  auth_check_sound :
      auth_check hdr user pass ≡ true → Authorises (or_empty user) (or_empty pass) hdr
  unfolding auth_check
  auth_check_sound h = go (b64_decode (skip_spaces (drop 6 hdr)) 512) refl
    where
      go :
          (d : Decoded)
          → b64_decode (skip_spaces (drop 6 hdr)) 512 ≡ d
          → Authorises (or_empty user) (or_empty pass) hdr
      go (text decoded) e = (
        ground arith,
        decoded,
        e,
        credentials_match_sound (or_empty user) (or_empty pass) decoded (ground arith),
      )
      go invalid e = ground arith
      go no_fuel e = ground arith

  auth_check_complete :
      HasNo b':' (or_empty user)
      → Authorises (or_empty user) (or_empty pass) hdr
      → auth_check hdr user pass ≡ true
  unfolding auth_check
  auth_check_complete clean (basic, decoded, e, creds) =
      ground (arith, credentials_match_complete (or_empty user) (or_empty pass) decoded clean)

  -- With a user name or a password configured and no colon in the user name, `auth_check` lets a
  -- request in exactly when its header has the scheme Basic and its payload is valid Base64 for a text
  -- that, up to its first NUL, is the user name, a colon and the password.
  pub auth_check_iff :
      HasNo b':' (or_empty user)
      → (auth_check hdr user pass ≡ true) ↔ Authorises (or_empty user) (or_empty pass) hdr
  auth_check_iff clean = (auth_check_sound, auth_check_complete clean)

skip_spaces-encode :
    (a : ℕ) (s : Bytes) → a < 256 → skip_spaces (b64_encode (a ∷ s)) ≡ b64_encode (a ∷ s)
unfolding skip_spaces b64_encode
skip_spaces-encode a [] h = ground arith
skip_spaces-encode a (b ∷ []) h = ground arith
skip_spaces-encode a (b ∷ c ∷ s) h = ground arith

skip_spaces-encode_credentials :
    (user pass : Bytes)
    → All IsByte user
    → skip_spaces (b64_encode (user ++ b':' ∷ pass)) ≡ b64_encode (user ++ b':' ∷ pass)
skip_spaces-encode_credentials [] pass u = skip_spaces-encode b':' pass (omega arith)
skip_spaces-encode_credentials (a ∷ user) pass u = skip_spaces-encode a (user ++ b':' ∷ pass) u.0

-- The header that a browser sends for the configured credentials is accepted, if they are NUL-free
-- bytes, the user name has no colon, and together they are shorter than 511 bytes.
pub auth_check-encode :
    (user pass : Bytes)
    → All IsByte user
    → All IsByte pass
    → HasNo 0 user
    → HasNo 0 pass
    → HasNo b':' user
    → length user + length pass < 511
    → auth_check (codes "Basic " ++ b64_encode (user ++ b':' ∷ pass)) (some user) (some pass) ≡ true
auth_check-encode user pass bu bp nu np cu fits =
    let creds = user ++ b':' ∷ pass in
    let sent = codes "Basic " ++ b64_encode (user ++ b':' ∷ pass) in
    elim (Bool-cases (is_set (some user) || is_set (some pass))) [
      | inl configured ↦
          auth_check_complete (codes "Basic " ++ b64_encode (user ++ b':' ∷ pass)) (some user)
            (some pass) configured (unfold or_empty in cu)
            (
              unfold starts_with_nocase in refl,
              user ++ b':' ∷ pass,
              rw (skip_spaces-encode_credentials user pass bu) (
                  decode-encode 512 (user ++ b':' ∷ pass)
                    (All-append IsByte user (b':' ∷ pass) bu (omega arith, bp))
                    (omega (arith, length-append {0} user (b':' ∷ pass)))),
              unfold or_empty in
                  c_str_clean (user ++ b':' ∷ pass)
                    (HasNo-append 0 user (b':' ∷ pass) nu (omega arith, np)),
            )
      | inr unset ↦ unfold auth_check in ground arith
    ]
