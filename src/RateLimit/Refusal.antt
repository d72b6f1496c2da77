-- ===== src/RateLimit/Refusal.antt =====
-- When `ratelimit_accept` turns a connection away, and when it does not although it should.
use local_marks.Prelude.{
  ℕ, zero, suc, false, if◌then◌else◌, ◌+◌, ◌-◌, ◌*◌, ◌%◌, ◌^◌, ◌≤◌, ◌<◌, ◌≡◌, ◌≢◌, inl, inr, refl,
  true, none, some, List, [], ◌∷◌, leb, length, get_or, set, arith, All-get, Option-cases,
  Bool-cases,
}
use local_marks.Prelude.Bytes.{Bytes}
use local_marks.Hash.{hash_ip}
use local_marks.Probe.{probe, probe-some, probe-none, probe-first}
use native.Mathlib.Nat.{mod-lt}
use local_marks.RateLimit.{
  RlEntry, RateLimit, vacant, entry_at, Verdict, allowed, denied, fault, Alloc, maintain, is_stale,
  sweep_entries, sweep_if_due, grow_if_loaded, ratelimit_sweep_stale, ratelimit_grow, accept_at,
  accept_taken, accept_probe, ratelimit_accept, is_vacant, same_ip,
}
use local_marks.RateLimit.Conns.{entry_conns, conns, entry-le-table_conns}
use local_marks.RateLimit.Safety.{IsEntry, IsValid, has_ip, occupied, granted}
use local_marks.RateLimit.Maintain.{sweep-Keeps}
use local_marks.RateLimit.Grow.{grow-Keeps}
use local_marks.RateLimit.Accept.{maintain-Keeps, sweep_if_due-Keeps, accept-Accepts}

occupied-le-length : (t : List RlEntry) → occupied t ≤ length t
unfolding occupied has_ip
occupied-le-length [] = omega arith
occupied-le-length (e ∷ t) = ground (arith, occupied-le-length t)

grow_if_loaded-roomy :
    (mem : Alloc) (s : RateLimit)
    → mem.calloc_ok ≡ true
    → IsValid s
    → s.used < 2 ^ 62
    → s.table_size < 2 ^ 62
    → occupied (grow_if_loaded mem s).table < (grow_if_loaded mem s).table_size
unfolding grow_if_loaded
grow_if_loaded-roomy mem s ok v su ss =
    elim (Bool-cases (leb (s.table_size * 3 % 2 ^ 64) (s.used * 4 % 2 ^ 64))) [
      | inl loaded ↦
          let k = grow-Keeps true v in
          rw (loaded, ok)
            (unfold ratelimit_grow in omega (arith, k.fewer, occupied-le-length s.table, v.sized))
      | inr light ↦ rw light (ground (arith, v.tracked))
    ]

-- After the maintenance the table has a slot without an address.
maintain-roomy :
    (mem : Alloc) (now : ℕ) {rl : RateLimit}
    → IsValid rl
    → mem.calloc_ok ≡ true
    → rl.used < 2 ^ 62
    → rl.table_size < 2 ^ 62
    → occupied (maintain mem now rl).table < (maintain mem now rl).table_size
unfolding maintain
maintain-roomy mem now {rl} v ok small_used small_size =
    let k = sweep_if_due-Keeps now v (omega arith) in
    grow_if_loaded-roomy mem (sweep_if_due now rl) ok k.valid (omega (arith, k.used_le))
      (rw size small_size)
  where
    size : (sweep_if_due now rl).table_size ≡ rl.table_size
    size = unfold sweep_if_due ratelimit_sweep_stale in ground arith

free_address :
    (t : List RlEntry)
    → occupied t < length t
    → (s : ℕ) × (s < length t) × ((get_or t s vacant).ip ≡ none)
unfolding occupied has_ip
free_address [] h = absurd (omega arith)
free_address (e ∷ t) h = elim (Option-cases e.ip) [
  | inl e0 ↦ (0, omega arith, e0)
  | inr (a, e1) ↦ let (s, lt, p) = free_address t (ground arith) in (suc s, omega arith, p)
]

-- a round that stops below the limit allows
accept_at-allowed :
    (mem : Alloc) (now : ℕ) {rl : RateLimit} (ip : Bytes) (slot : ℕ) {r : Verdict × RateLimit}
    → IsValid rl
    → slot < rl.table_size
    → mem.strdup_ok ≡ true
    → conns ip rl < rl.max_per_ip
    → accept_at mem now rl ip slot ≡ some r
    → r.0 ≢ denied
unfolding accept_at accept_taken same_ip is_vacant entry_conns conns
accept_at-allowed mem now {rl} ip slot v lt ok under at =
    ground (arith, entry-le-table_conns ip rl.table slot, v.sized)

Verdict-allowed : (x : Verdict) → x ≢ fault → x ≢ denied → x ≡ allowed
Verdict-allowed allowed a b = refl
Verdict-allowed denied a b = absurd (b refl)
Verdict-allowed fault a b = absurd (a refl)

accept_probe-not_denied :
    (mem : Alloc) (now : ℕ) {rl : RateLimit} (ip : Bytes)
    → IsValid rl
    → mem.strdup_ok ≡ true
    → occupied rl.table < rl.table_size
    → conns ip rl < rl.max_per_ip
    → (accept_probe mem now rl ip).0 ≢ denied
unfolding accept_probe
accept_probe-not_denied mem now {rl} ip v ok roomy under =
    elim (Option-cases
      (probe (accept_at mem now rl ip) (hash_ip ip % rl.table_size) rl.table_size)) [
        | inl full ↦
            let (s, lt, free) = free_address rl.table (omega (arith, v.sized)) in
            let idle =
              (All-get (IsEntry rl.max_per_ip) rl.table s vacant v.entries lt).keyed free in
            let on =
              probe-none (accept_at mem now rl ip) (hash_ip ip % rl.table_size) rl.table_size s
                (mod-lt (hash_ip ip) v.roomy) (omega (arith, v.sized)) full in
            absurd (unfold accept_at is_vacant in ground (arith, on))
        | inr (r, hit) ↦
            let (s, lt, at) =
              probe-some (accept_at mem now rl ip) (hash_ip ip % rl.table_size) rl.table_size
                v.roomy hit in
            rw (hit, accept_probe) (accept_at-allowed mem now ip s v lt ok under at)
      ]

-- An address below its limit is never turned away: with memory at hand and a table below 2^62 slots,
-- `ratelimit_accept` allows the call.
pub accept-allowed :
    (mem : Alloc) (now : ℕ) (rl : RateLimit) (ip : Bytes)
    → IsValid rl
    → mem.calloc_ok ≡ true
    → mem.strdup_ok ≡ true
    → rl.used < 2 ^ 62
    → rl.table_size < 2 ^ 62
    → conns ip rl < rl.max_per_ip
    → (ratelimit_accept mem now rl ip).0 ≡ allowed
unfolding ratelimit_accept
accept-allowed mem now rl ip v calloc_ok strdup_ok su ss under =
    let a = accept-Accepts mem now rl ip v (omega arith) in
    let k = maintain-Keeps mem now v (omega arith) in
    let safe : (accept_probe mem now (maintain mem now rl) ip).0 ≢ fault =
      unfold ratelimit_accept in a.safe in
    Verdict-allowed (accept_probe mem now (maintain mem now rl) ip).0 safe (
      accept_probe-not_denied mem now ip k.valid strdup_ok
        (maintain-roomy mem now v calloc_ok su ss) (omega (arith, k.same ip, k.limit)))

accept_at_vacant :
    (mem : Alloc) (now : ℕ) (rl : RateLimit) (ip : Bytes) (slot : ℕ)
    → mem.strdup_ok ≡ true
    → is_vacant (entry_at rl slot) ≡ true
    → (r : Verdict × RateLimit) × (accept_at mem now rl ip slot ≡ some r) × (r.0 ≡ allowed)
unfolding accept_at
accept_at_vacant mem now rl ip slot ok vac = (
  (
    allowed,
    record rl {
      table = set rl.table slot (record { ip = some ip; count = 1; last_activity = now });
      used = (rl.used + 1) % 2 ^ 64;
    },
  ),
  rw (vac, ok),
  refl,
)

accept_vacant :
    (mem : Alloc) (now : ℕ) (rl : RateLimit) (ip : Bytes)
    → IsValid rl
    → mem.strdup_ok ≡ true
    → is_vacant (entry_at rl (hash_ip ip % rl.table_size)) ≡ true
    → (accept_probe mem now rl ip).0 ≡ allowed
unfolding accept_probe
accept_vacant mem now rl ip v ok vac =
    let at = accept_at_vacant mem now rl ip (hash_ip ip % rl.table_size) ok vac in
    rw
      (
        probe-first (accept_at mem now rl ip) (hash_ip ip % rl.table_size) rl.table_size
            (mod-lt (hash_ip ip) v.roomy) at.1,
        accept_probe,
      )
      at.2

-- the sweep empties the slot of a stale entry
sweep_entries-stale :
    (now : ℕ) (es : List RlEntry) (i used : ℕ)
    → is_stale now (get_or es i vacant) ≡ true
    → is_vacant (get_or (sweep_entries now es used).0 i vacant) ≡ true
unfolding sweep_entries is_stale is_vacant
sweep_entries-stale now [] i used stale = absurd (ground arith)
sweep_entries-stale now (e ∷ es) zero used stale = rw stale (ground (arith, stale))
sweep_entries-stale now (e ∷ es) (suc i) used stale =
    sweep_entries-stale now es i (if is_stale now e then (used + 2 ^ 64 - 1) % 2 ^ 64 else used)
      stale

-- a due sweep of a table that is not loaded
maintain-swept :
    (mem : Alloc) (now : ℕ) (rl : RateLimit)
    → IsValid rl
    → rl.table_size < 2 ^ 62
    → rl.used * 4 < rl.table_size * 3
    → 60 ≤ now - rl.last_sweep
    → maintain mem now rl ≡ record (ratelimit_sweep_stale now rl) { last_sweep = now }
unfolding maintain grow_if_loaded sweep_if_due
maintain-swept mem now rl v small light due =
    let on : leb 60 (now - rl.last_sweep) ≡ true = ground arith in
    let fewer = (sweep-Keeps now v (omega arith)).used_le in
    let off : leb (rl.table_size * 3 % 2 ^ 64) ((ratelimit_sweep_stale now rl).used * 4 % 2 ^ 64)
        ≡ false =
      ground (arith, fewer) in
    rw (on, off) refl

idle_is_stale :
    (now : ℕ) (e : RlEntry) (other : Bytes)
    → e.ip ≡ some other
    → e.count ≡ 0
    → 60 < now - e.last_activity
    → is_stale now e ≡ true
unfolding is_stale
idle_is_stale now e other held idle old = ground (arith, held, idle, old)

-- The limit can be passed: when a sweep is due in a table that is not loaded, and the slot that the
-- hash of an address picks holds another address that has no connection and has been idle for more than
-- 60 seconds, the call is allowed however many connections the address has, so that an address at its
-- limit then holds more than the limit.
pub accept-over_limit :
    (mem : Alloc) (now : ℕ) (rl : RateLimit) (ip other : Bytes)
    → IsValid rl
    → rl.table_size < 2 ^ 62
    → rl.used * 4 < rl.table_size * 3
    → mem.strdup_ok ≡ true
    → rl.max_per_ip ≤ conns ip rl
    → 60 ≤ now - rl.last_sweep
    → (entry_at rl (hash_ip ip % rl.table_size)).ip ≡ some other
    → (entry_at rl (hash_ip ip % rl.table_size)).count ≡ 0
    → 60 < now - (entry_at rl (hash_ip ip % rl.table_size)).last_activity
    → ((ratelimit_accept mem now rl ip).0 ≡ allowed)
      × ((ratelimit_accept mem now rl ip).1.max_per_ip
          < conns ip (ratelimit_accept mem now rl ip).1)
accept-over_limit mem now rl ip other v small light ok full due held idle old =
    let stale : is_stale now (entry_at rl (hash_ip ip % rl.table_size)) ≡ true =
      idle_is_stale now (entry_at rl (hash_ip ip % rl.table_size)) other held idle old in
    let a = accept-Accepts mem now rl ip v (omega arith) in
    let k = maintain-Keeps mem now v (omega arith) in
    let vac : is_vacant
          (entry_at (maintain mem now rl) (hash_ip ip % (maintain mem now rl).table_size))
        ≡ true =
      rw (maintain-swept mem now rl v small light due) (
        unfold ratelimit_sweep_stale in
        sweep_entries-stale now rl.table (hash_ip ip % rl.table_size) rl.used stale) in
    let through = accept_vacant mem now (maintain mem now rl) ip k.valid ok vac in
    let yes_allowed : (ratelimit_accept mem now rl ip).0 ≡ allowed =
      unfold ratelimit_accept in through in
    let one : granted (ratelimit_accept mem now rl ip).0 ≡ 1 =
      rw yes_allowed (unfold granted in refl) in
    (yes_allowed, omega (arith, a.own, one, a.kept))
