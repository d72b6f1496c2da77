-- ===== src/RateLimit/Grow.antt =====
-- `ratelimit_grow`: the rehash finds a place for every entry that counts connections, so the larger
-- table holds the connections of the smaller one.
use local_marks.Prelude.{
  ℕ, zero, suc, ◌+◌, ◌*◌, ◌%◌, ◌≤◌, ◌<◌, ◌≡◌, inl, inr, refl, Bool, true, false, List, [], ◌∷◌, ltb,
  if◌then◌else◌, length, get_or, set, replicate, arith, All, All-set, All-replicate, length-set,
  length-replicate, Option-cases, Bool-cases,
}
use local_marks.Prelude.Bytes.{Bytes}
use local_marks.Hash.{hash_ip}
use local_marks.Probe.{probe, probe-some, probe-none}
use native.Mathlib.Nat.{mod-lt}
use native.Mathlib.Decide.{ℕ_discrete}
use local_marks.RateLimit.{
  RlEntry, RateLimit, vacant, place, rehash, ratelimit_grow, free_at, ip_of,
}
use local_marks.RateLimit.Conns.{
  entry_conns-le, table_conns, conns, table_conns-set, table_conns-replicate,
}
use local_marks.RateLimit.Safety.{IsEntry, IsValid, has_ip, occupied, occupied-set}
use local_marks.RateLimit.Maintain.{Keeps}

-- the slots that count a connection
active : List RlEntry → ℕ
active [] = 0
active (e ∷ es) = (if ltb 0 e.count then 1 else 0) + active es

active-set :
    (t : List RlEntry) (i : ℕ) (e : RlEntry) → i < length t → active (set t i e) ≤ active t + 1
unfolding active
active-set [] i e h = absurd (omega arith)
active-set (x ∷ t) zero e h = ground arith
active-set (x ∷ t) (suc i) e h = ground (arith, active-set t i e)

active-replicate : (n : ℕ) → active (replicate n vacant) ≡ 0
unfolding active
active-replicate zero = refl
active-replicate (suc n) = omega (arith, active-replicate n)

pub occupied-replicate : (n : ℕ) → occupied (replicate n vacant) ≡ 0
unfolding occupied has_ip
occupied-replicate zero = refl
occupied-replicate (suc n) = omega (arith, occupied-replicate n)

-- a table with fewer active slots than slots has a free one
free_slot :
    (t : List RlEntry)
    → active t < length t
    → (s : ℕ) × (s < length t) × ((get_or t s vacant).count ≡ 0)
unfolding active
free_slot [] h = absurd (omega arith)
free_slot (x ∷ t) h = elim (ℕ_discrete x.count 0) [
  | yes e ↦ (0, omega arith, e)
  | no ne ↦ let (s, lt, e) = free_slot t (ground arith) in (suc s, omega arith, e)
]

-- so the inner loop of `ratelimit_grow` finds a place
place-lem :
    (n : ℕ) (t : List RlEntry) (e : RlEntry)
    → length t ≡ n
    → active t < n
    → (s : ℕ) × (s < n) × ((get_or t s vacant).count ≡ 0) × (place n t e ≡ set t s e)
unfolding place
place-lem n t e size room = elim (Option-cases (probe (free_at t) (hash_ip (ip_of e) % n) n)) [
  | inl miss ↦
      let (s, lt, free) = free_slot t (omega arith) in
      absurd (
        ground (
          arith,
          probe-none (free_at t) (hash_ip (ip_of e) % n) n s
              (mod-lt (hash_ip (ip_of e)) (omega arith)) (omega arith) miss,
        ))
  | inr (r, hit) ↦
      let (s, lt, at) = probe-some (free_at t) (hash_ip (ip_of e) % n) n (omega arith) hit in
      (r, ground arith, ground arith, rw (hit, place))
]

-- What the outer loop makes of the table `t` and the old entries `es`.
record Rehashed (n max : ℕ) (t es r : List RlEntry) : Type 0 where
  size : length r ≡ n
  ordered : All (IsEntry max) r
  tracked : occupied r ≤ occupied t + occupied es
  same : (q : Bytes) → table_conns q r ≡ table_conns q t + table_conns q es

rehash-Rehashed :
    (n max : ℕ) (t es : List RlEntry)
    → length t ≡ n
    → active t + length es ≤ n
    → All (IsEntry max) t
    → All (IsEntry max) es
    → Rehashed n max t es (rehash n t es)
unfolding rehash occupied table_conns
rehash-Rehashed n max t [] size room ok old = record {
  size = size;
  ordered = ok;
  tracked = omega arith;
  same = λ q. omega arith;
}
rehash-Rehashed n max t (e ∷ es) size room ok old = elim (Bool-cases (ltb 0 e.count)) [
  | inl live ↦
      let (s, lt, free, at) = place-lem n t e size (omega arith) in
      let u =
        rehash-Rehashed n max (set t s e) es (omega (arith, length-set t s e))
          (omega (arith, active-set t s e)) (All-set (IsEntry max) t s e ok old.0) old.1 in
      rw (live, at)
        (record {
          size = u.size;
          ordered = u.ordered;
          tracked = omega (arith, u.tracked, occupied-set t s e);
          same = λ q.
              omega
                (arith, u.same q, table_conns-set q t s e, entry_conns-le q (get_or t s vacant));
        })
  | inr dormant ↦
      let u = rehash-Rehashed n max t es size (omega arith) ok old.1 in
      rw dormant (record {
        size = u.size;
        ordered = u.ordered;
        tracked = omega (arith, u.tracked);
        same = λ q. ground (arith, u.same q, entry_conns-le q e);
      })
]

pub grow-Keeps :
    (calloc_ok : Bool) {rl : RateLimit} → IsValid rl → Keeps rl (ratelimit_grow calloc_ok rl)
unfolding ratelimit_grow conns
grow-Keeps false v = record {
  valid = v;
  same = λ q. refl;
  limit = refl;
  used_le = omega arith;
  fewer = omega arith;
}
grow-Keeps true {rl} v =
    let n = rl.table_size * 2 in
    let u =
      rehash-Rehashed n rl.max_per_ip (replicate n vacant) rl.table (length-replicate n vacant)
        (omega (arith, active-replicate n, v.sized))
        (All-replicate (IsEntry rl.max_per_ip) n vacant
          (record { keyed = λ _. refl; capped = omega arith }))
        v.entries in
    record {
      valid = record {
        limited = v.limited;
        sized = u.size;
        roomy = omega (arith, v.roomy);
        entries = u.ordered;
        tracked = omega (arith, u.tracked, occupied-replicate n, v.tracked);
      };
      same = λ q. omega (arith, u.same q, table_conns-replicate q n);
      limit = refl;
      used_le = omega arith;
      fewer = omega (arith, u.tracked, occupied-replicate n);
    }
