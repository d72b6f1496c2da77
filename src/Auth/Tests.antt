-- ===== src/Auth/Tests.antt =====
-- Runs of src/auth.c.
use local_marks.Prelude.{◌≡◌, ◌↔◌, refl, true, some, arith}
use local_marks.Prelude.Bytes.{codes}
use local_marks.Auth.{text, b64_decode, is_set, or_empty, auth_check}
use local_marks.Auth.Base64.{b64_digit, b64_encode, decode-encode}
use local_marks.Auth.Bounds.{Fits, decode-Fits}
use local_marks.Auth.Check.{Authorises, auth_check_iff}

-- "Man" is "TWFu"
encode_man : b64_encode (codes "Man") ≡ codes "TWFu"
unfolding b64_encode b64_digit
encode_man = refl

decode-encode_example : b64_decode (b64_encode (codes "user:pw")) 512 ≡ text (codes "user:pw")
decode-encode_example = decode-encode 512 (codes "user:pw") (omega arith) (omega arith)

decode-Fits_example : Fits 4 (b64_decode (codes "TWFuTWFu") 4)
decode-Fits_example = decode-Fits (codes "TWFuTWFu") 4 (omega arith)

auth_check_iff_example :
    (auth_check (codes "Basic dTpw") (some (codes "u")) (some (codes "p")) ≡ true)
    ↔ Authorises (or_empty (some (codes "u"))) (or_empty (some (codes "p"))) (codes "Basic dTpw")
unfolding is_set
auth_check_iff_example =
    auth_check_iff (codes "Basic dTpw") (some (codes "u")) (some (codes "p")) refl
      (unfold or_empty in (omega arith))
