-- ===== src/RateLimit/Safety.antt =====
-- The invariant of the limiter's table, and what one probe of `ratelimit_accept` or
-- `ratelimit_leave` does to it and to the connection counts.
use local_marks.Prelude.{
  ℕ, zero, suc, ◌+◌, ◌≤◌, ◌<◌, ◌≡◌, ◌≢◌, false, none, some, List, [], ◌∷◌, length, get_or, set,
  arith, All,
}
use local_marks.Prelude.Bytes.{Bytes, str_eq}
use local_marks.RateLimit.{RlEntry, RateLimit, vacant, Verdict, allowed, denied, fault}
use local_marks.RateLimit.Conns.{conns}

-- an entry that counts connections has an address, and counts no more than the limit
pub record IsEntry (max_per_ip : ℕ) (e : RlEntry) : Type 0 where
  pub keyed : e.ip ≡ none → e.count ≡ 0
  pub capped : e.count ≤ max_per_ip

-- whether a slot has an address, as a number; `occupied` is how many slots have one
unfoldable pub has_ip : RlEntry → ℕ
has_ip e = elim e.ip [ none ↦ 0 | some s ↦ 1 ]

unfoldable pub occupied : List RlEntry → ℕ
unfolding has_ip
occupied [] = 0
occupied (e ∷ es) = has_ip e + occupied es

pub record IsValid (rl : RateLimit) : Type 0 where
  pub limited : 0 < rl.max_per_ip
  pub sized : length rl.table ≡ rl.table_size
  pub roomy : 0 < rl.table_size
  pub entries : All (IsEntry rl.max_per_ip) rl.table
  pub tracked : occupied rl.table ≤ rl.used

unfoldable pub granted : Verdict → ℕ
granted allowed = 1
granted denied = 0
granted fault = 0

pub occupied-set :
    (t : List RlEntry) (i : ℕ) (e : RlEntry)
    → i < length t
    → occupied (set t i e) + has_ip (get_or t i vacant) ≡ occupied t + has_ip e
unfolding occupied
occupied-set [] i e h = absurd (omega arith)
occupied-set (x ∷ t) zero e h = omega arith
occupied-set (x ∷ t) (suc i) e h = omega (arith, occupied-set t i e)

-- What one call did for `ip`: no `strcmp` on NULL, the invariant, one more connection if the call
-- allowed it, and none else.
pub record Accepts (rl : RateLimit) (ip : Bytes) (r : Verdict × RateLimit) : Type 0 where
  pub safe : r.0 ≢ fault
  pub valid : IsValid r.1
  pub own : conns ip r.1 ≡ conns ip rl + granted r.0
  pub others : (q : Bytes) → str_eq ip q ≡ false → conns q r.1 ≡ conns q rl
  pub kept : r.1.max_per_ip ≡ rl.max_per_ip
