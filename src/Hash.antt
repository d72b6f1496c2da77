-- ===== src/Hash.antt =====
-- The two string hashes: `fnv1a_str` and `fnv1a_data` of src/fnv1a.h, which fill the embedded-file
-- table and make the ETags, and `hash_ip` of src/ratelimit.c, which picks a limiter slot.
use Prim.Native.Nat.{bit_xor}
use local_marks.Prelude.{ℕ, ◌+◌, ◌-◌, ◌*◌, ◌%◌, ◌^◌, [], ◌∷◌, ltb, if◌then◌else◌}
use local_marks.Prelude.Bytes.{Bytes}

-- one round: `h ^= b; h *= 16777619u` on a `uint32_t`
unfoldable pub fnv1a_round : ℕ → ℕ → ℕ
fnv1a_round h b = bit_xor h b * 16777619 % 2 ^ 32

unfoldable pub fnv1a_loop : ℕ → Bytes → ℕ
unfolding fnv1a_round
fnv1a_loop h [] = h
fnv1a_loop h (b ∷ bs) = fnv1a_loop (fnv1a_round h b) bs

-- The bytes of a C string end before its NUL.
unfoldable pub fnv1a_str : Bytes → ℕ
unfolding fnv1a_loop
fnv1a_str s = fnv1a_loop 2166136261 s

unfoldable pub fnv1a_data : Bytes → ℕ
unfolding fnv1a_loop
fnv1a_data d = fnv1a_loop 2166136261 d

-- `(unsigned long)c` of a signed `char`: a byte from 128 on is sign-extended to 64 bits.
unfoldable pub sign_extend : ℕ → ℕ
sign_extend c = if ltb c 128 then c else 2 ^ 64 - 256 + c

unfoldable pub hash_ip_loop : ℕ → Bytes → ℕ
unfolding sign_extend
hash_ip_loop h [] = h
hash_ip_loop h (c ∷ cs) = hash_ip_loop ((h * 32 % 2 ^ 64 + h + sign_extend c) % 2 ^ 64) cs

unfoldable pub hash_ip : Bytes → ℕ
unfolding hash_ip_loop
hash_ip ip = hash_ip_loop 5381 ip
