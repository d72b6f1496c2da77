-- ===== src/RateLimit/Accept.antt =====
-- The calls of the limiter: `ratelimit_create`, `ratelimit_accept` and `ratelimit_leave`.
use local_marks.Prelude.{
  ℕ, zero, suc, ◌-◌, ◌*◌, ◌%◌, ◌^◌, ◌<◌, ◌≡◌, ◌≢◌, ◌⊎◌, inl, inr, refl, ◌∙◌, Bool, true, false,
  none, some, leb, arith, All-replicate, length-replicate, Option-cases, Bool-cases,
}
use local_marks.Prelude.Bytes.{Bytes}
use local_marks.Hash.{hash_ip}
use local_marks.Probe.{probe, probe-some, probe-none}
use native.Mathlib.Nat.{mod-lt}
use local_marks.RateLimit.{
  RateLimit, vacant, Alloc, sweep_if_due, grow_if_loaded, same_ip, maintain, accept_at,
  accept_probe, ratelimit_accept, leave_at, ratelimit_leave, ratelimit_create, fresh_limit,
  rl_initial_size, rl_stale_timeout_secs,
}
use local_marks.RateLimit.Conns.{entry_conns, conns, table_conns-pos, table_conns-replicate}
use local_marks.RateLimit.Safety.{IsEntry, IsValid, granted, Accepts}
use local_marks.RateLimit.Slot.{accept_at-Accepts, Leaves, leave_at-Leaves}
use local_marks.RateLimit.Maintain.{Keeps, sweep-Keeps}
use local_marks.RateLimit.Grow.{grow-Keeps, occupied-replicate}

Keeps-refl : {rl : RateLimit} → IsValid rl → Keeps rl rl
Keeps-refl v = record {
  valid = v;
  same = λ q. refl;
  limit = refl;
  used_le = omega arith;
  fewer = omega arith;
}

pub sweep_if_due-Keeps :
    (now : ℕ) {rl : RateLimit} → IsValid rl → rl.used < 2 ^ 64 → Keeps rl (sweep_if_due now rl)
unfolding sweep_if_due
sweep_if_due-Keeps now {rl} v small =
    elim (Bool-cases (leb rl_stale_timeout_secs (now - rl.last_sweep))) [
      | inl due ↦
          let k = sweep-Keeps now v small in
          rw due (record {
            valid = record {
              limited = k.valid.limited;
              sized = k.valid.sized;
              roomy = k.valid.roomy;
              entries = k.valid.entries;
              tracked = k.valid.tracked;
            };
            same = unfold conns in k.same;
            limit = k.limit;
            used_le = k.used_le;
            fewer = k.fewer;
          })
      | inr early ↦ rw early (Keeps-refl v)
    ]

pub grow_if_loaded-Keeps :
    (mem : Alloc) {rl : RateLimit} → IsValid rl → Keeps rl (grow_if_loaded mem rl)
unfolding grow_if_loaded
grow_if_loaded-Keeps mem {rl} v =
    elim (Bool-cases (leb (rl.table_size * 3 % 2 ^ 64) (rl.used * 4 % 2 ^ 64))) [
      | inl loaded ↦ rw loaded (grow-Keeps mem.calloc_ok v)
      | inr light ↦ rw light (Keeps-refl v)
    ]

-- Sweep and growth keep the invariant and every address's connections, the limit too.
pub maintain-Keeps :
    (mem : Alloc) (now : ℕ) {rl : RateLimit}
    → IsValid rl
    → rl.used < 2 ^ 64
    → Keeps rl (maintain mem now rl)
unfolding maintain
maintain-Keeps mem now {rl} v small =
    let k = sweep_if_due-Keeps now v small in
    let g = grow_if_loaded-Keeps mem k.valid in
    record {
      valid = g.valid;
      same = λ q. g.same q ∙ k.same q;
      limit = g.limit ∙ k.limit;
      used_le = omega (arith, g.used_le, k.used_le);
      fewer = omega (arith, g.fewer, k.fewer);
    }

accept_probe-Accepts :
    (mem : Alloc) (now : ℕ) {rl : RateLimit} (ip : Bytes)
    → IsValid rl
    → rl.used < 2 ^ 64 - 1
    → Accepts rl ip (accept_probe mem now rl ip)
unfolding accept_probe granted
accept_probe-Accepts mem now {rl} ip v room =
    elim (Option-cases
      (probe (accept_at mem now rl ip) (hash_ip ip % rl.table_size) rl.table_size)) [
        | inl full ↦
            rw (full, accept_probe)
              (record {
                safe = ground arith;
                valid = v;
                own = omega arith;
                others = λ q ne. refl;
                kept = refl;
              })
        | inr (r, hit) ↦
            let (s, lt, at) =
              probe-some (accept_at mem now rl ip) (hash_ip ip % rl.table_size) rl.table_size
                v.roomy hit in
            rw (hit, accept_probe) (rw at at (accept_at-Accepts mem now rl ip v s lt room))
      ]

-- A call of `ratelimit_accept` on a table in order never hands NULL to `strcmp`, leaves the table in
-- order, adds one connection of `ip` if it allows the call and none if it denies it, and changes the
-- connections of no other address, whatever it sweeps or grows on the way.
pub accept-Accepts :
    (mem : Alloc) (now : ℕ) (rl : RateLimit) (ip : Bytes)
    → IsValid rl
    → rl.used < 2 ^ 64 - 1
    → Accepts rl ip (ratelimit_accept mem now rl ip)
unfolding ratelimit_accept
accept-Accepts mem now rl ip v room =
    let k = maintain-Keeps mem now v (omega arith) in
    let a = accept_probe-Accepts mem now ip k.valid (omega (arith, k.used_le)) in
    record {
      safe = a.safe;
      valid = a.valid;
      own = omega (arith, a.own, k.same ip);
      others = λ q ne. a.others q ne ∙ k.same q;
      kept = a.kept ∙ k.limit;
    }

leave_miss :
    (now : ℕ) {rl : RateLimit} (ip : Bytes)
    → IsValid rl
    → 0 < conns ip rl
    → probe (leave_at now rl ip) (hash_ip ip % rl.table_size) rl.table_size ≢ none
unfolding conns leave_at entry_conns same_ip
leave_miss now {rl} ip v some_conns miss =
    let (s, lt, p) = table_conns-pos ip rl.table some_conns in
    ground (
      arith,
      probe-none (leave_at now rl ip) (hash_ip ip % rl.table_size) rl.table_size s
          (mod-lt (hash_ip ip) v.roomy) (omega (arith, v.sized)) miss,
    )

-- `ratelimit_leave` for an address with connections takes one off, keeps the invariant and the
-- connections of all other addresses, and never hands NULL to `strcmp`.
pub leave-Leaves :
    (now : ℕ) (rl : RateLimit) (ip : Bytes)
    → IsValid rl
    → 0 < conns ip rl
    → Leaves rl ip (ratelimit_leave now rl ip)
unfolding ratelimit_leave
leave-Leaves now rl ip v some_conns =
    elim (Option-cases (probe (leave_at now rl ip) (hash_ip ip % rl.table_size) rl.table_size)) [
      | inl miss ↦ absurd (leave_miss now ip v some_conns miss)
      | inr (r, hit) ↦
          let (s, lt, at) =
            probe-some (leave_at now rl ip) (hash_ip ip % rl.table_size) rl.table_size v.roomy
              hit in
          rw (hit, ratelimit_leave)
            (rw at at
              (leave_at-Leaves (record { calloc_ok = true; strdup_ok = true }) now rl ip v s lt))
    ]

-- `ratelimit_leave` for an address without connections changes nothing.
pub leave_absent :
    (now : ℕ) (rl : RateLimit) (ip : Bytes)
    → IsValid rl
    → conns ip rl ≡ 0
    → ratelimit_leave now rl ip ≡ (true, rl)
unfolding ratelimit_leave
leave_absent now rl ip v none_left =
    elim (Option-cases (probe (leave_at now rl ip) (hash_ip ip % rl.table_size) rl.table_size)) [
      | inl miss ↦ rw (miss, ratelimit_leave)
      | inr (r, hit) ↦
          let (s, lt, at) =
            probe-some (leave_at now rl ip) (hash_ip ip % rl.table_size) rl.table_size v.roomy
              hit in
          let l =
            rw at at
              (leave_at-Leaves (record { calloc_ok = true; strdup_ok = true }) now rl ip v s lt) in
          absurd (omega (arith, l.own))
    ]

pub fresh-IsValid : (now max : ℕ) → 0 < max → IsValid (fresh_limit now max)
fresh-IsValid now max h = record {
  limited = h;
  sized = length-replicate rl_initial_size vacant;
  roomy = omega arith;
  entries =
      All-replicate (IsEntry max) rl_initial_size vacant
        (record { keyed = λ _. refl; capped = omega arith });
  tracked = omega (arith, occupied-replicate rl_initial_size);
}

-- `ratelimit_create` makes a limiter exactly when its argument is positive and the allocations
-- succeed; the limiter has that limit, is in order and counts no connection of any address.
pub ratelimit_create-IsValid :
    (alloc_ok : Bool) (now max : ℕ)
    → ((ratelimit_create alloc_ok now max ≡ none) × ((max ≡ 0) ⊎ (alloc_ok ≡ false)))
      ⊎ ((rl : RateLimit) × (ratelimit_create alloc_ok now max ≡ some rl)
          × (0 < max)
          × (alloc_ok ≡ true)
          × IsValid rl
          × ((q : Bytes) → conns q rl ≡ 0)
          × (rl.max_per_ip ≡ max))
unfolding ratelimit_create conns
ratelimit_create-IsValid false now max = inl (ground arith, inr refl)
ratelimit_create-IsValid true now zero = inl (refl, inl refl)
ratelimit_create-IsValid true now (suc m) = inr (
  fresh_limit now (suc m),
  ground arith,
  omega arith,
  refl,
  fresh-IsValid now (suc m) (omega arith),
  (λ q. table_conns-replicate q rl_initial_size),
  refl,
)
