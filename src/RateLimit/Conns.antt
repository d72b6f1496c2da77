-- ===== src/RateLimit/Conns.antt =====
-- How many connections the limiter's table holds for an address: the sum of the counts of its slots.
use local_marks.Prelude.{
  ℕ, zero, suc, ◌+◌, ◌≤◌, ◌<◌, ◌≡◌, refl, none, some, List, [], ◌∷◌, if◌then◌else◌, length, get_or,
  set, replicate, arith,
}
use local_marks.Prelude.Bytes.{Bytes, str_eq}
use native.Mathlib.Decide.{ℕ_discrete}
use local_marks.RateLimit.{RlEntry, RateLimit, vacant}

-- the connections that one slot counts for `ip`
unfoldable pub entry_conns : Bytes → RlEntry → ℕ
entry_conns ip e = elim e.ip [ none ↦ 0 | some s ↦ if str_eq s ip then e.count else 0 ]

unfoldable pub table_conns : Bytes → List RlEntry → ℕ
unfolding entry_conns
table_conns ip [] = 0
table_conns ip (e ∷ es) = entry_conns ip e + table_conns ip es

unfoldable pub conns : Bytes → RateLimit → ℕ
unfolding table_conns
conns ip rl = table_conns ip rl.table

pub entry_conns-le : (ip : Bytes) (e : RlEntry) → entry_conns ip e ≤ e.count
unfolding entry_conns
entry_conns-le ip e = ground arith

pub table_conns-set :
    (ip : Bytes) (t : List RlEntry) (i : ℕ) (e : RlEntry)
    → i < length t
    → table_conns ip (set t i e) + entry_conns ip (get_or t i vacant)
      ≡ table_conns ip t + entry_conns ip e
unfolding table_conns
table_conns-set ip [] i e h = absurd (omega arith)
table_conns-set ip (x ∷ t) zero e h = omega arith
table_conns-set ip (x ∷ t) (suc i) e h = omega (arith, table_conns-set ip t i e)

pub table_conns-replicate : (ip : Bytes) (n : ℕ) → table_conns ip (replicate n vacant) ≡ 0
unfolding table_conns
table_conns-replicate ip zero = refl
table_conns-replicate ip (suc n) = omega (arith, table_conns-replicate ip n)

pub entry-le-table_conns :
    (ip : Bytes) (t : List RlEntry) (i : ℕ)
    → i < length t
    → entry_conns ip (get_or t i vacant) ≤ table_conns ip t
unfolding table_conns
entry-le-table_conns ip [] i h = absurd (omega arith)
entry-le-table_conns ip (x ∷ t) zero h = omega arith
entry-le-table_conns ip (x ∷ t) (suc i) h = omega (arith, entry-le-table_conns ip t i)

-- an address with connections has a slot that counts some
pub table_conns-pos :
    (ip : Bytes) (t : List RlEntry)
    → 0 < table_conns ip t
    → (i : ℕ) × (i < length t) × (0 < entry_conns ip (get_or t i vacant))
unfolding table_conns
table_conns-pos ip [] h = absurd (omega arith)
table_conns-pos ip (x ∷ t) h = elim (ℕ_discrete (entry_conns ip x) 0) [
  | no ne ↦ (0, omega arith, omega arith)
  | yes e ↦ let (i, lt, p) = table_conns-pos ip t (omega arith) in (suc i, omega arith, p)
]
