-- ===== src/RateLimit/Used.antt =====
-- How the count of used slots moves in one call.
use local_marks.Prelude.{
  ℕ, ◌+◌, ◌%◌, ◌^◌, ◌≤◌, ◌<◌, ◌≡◌, inl, inr, refl, Bool, true, false, Option, none, some, ltb, leb,
  arith, Option-cases, Bool-cases,
}
use local_marks.Prelude.Bytes.{Bytes}
use local_marks.Hash.{hash_ip}
use local_marks.Probe.{probe, probe-some}
use local_marks.RateLimit.{
  RlEntry, RateLimit, Alloc, Verdict, entry_at, is_vacant, same_ip, maintain, accept_taken,
  accept_at, accept_probe, ratelimit_accept, leave_taken, leave_at, ratelimit_leave,
}
use local_marks.RateLimit.Safety.{IsValid}
use local_marks.RateLimit.Slot.{OrNext}
use local_marks.RateLimit.Accept.{maintain-Keeps}

abbrev AtMostOneMore : RateLimit → Verdict × RateLimit → Type 0
AtMostOneMore rl (v, r) = r.used ≤ rl.used + 1

accept_taken-used :
    (now : ℕ) (rl : RateLimit) (slot : ℕ) (e : RlEntry) (same : Option Bool)
    → OrNext (AtMostOneMore rl) (accept_taken now rl slot e same)
unfolding accept_taken
accept_taken-used now rl slot e none = omega arith
accept_taken-used now rl slot e (some false) = tt
accept_taken-used now rl slot e (some true) = elim (Bool-cases (leb rl.max_per_ip e.count)) [
  | inl full ↦ rw full (omega arith)
  | inr room ↦ rw room (omega arith)
]

accept_at-used :
    (mem : Alloc) (now : ℕ) (rl : RateLimit) (ip : Bytes) (slot : ℕ)
    → OrNext (AtMostOneMore rl) (accept_at mem now rl ip slot)
unfolding accept_at
accept_at-used mem now rl ip slot = elim (Bool-cases (is_vacant (entry_at rl slot))) [
  | inr taken ↦
      rw taken (accept_taken-used now rl slot (entry_at rl slot) (same_ip (entry_at rl slot) ip))
  | inl vacant ↦ elim (Bool-cases mem.strdup_ok) [
    | inl copied ↦ rw (vacant, copied) (omega arith)
    | inr no_memory ↦ rw (vacant, no_memory) (omega arith)
  ]
]

accept_probe-used :
    (mem : Alloc) (now : ℕ) (rl : RateLimit) (ip : Bytes)
    → IsValid rl
    → (accept_probe mem now rl ip).1.used ≤ rl.used + 1
unfolding accept_probe
accept_probe-used mem now rl ip v =
    elim (Option-cases
      (probe (accept_at mem now rl ip) (hash_ip ip % rl.table_size) rl.table_size)) [
        | inl full ↦ rw (full, accept_probe) (omega arith)
        | inr (r, hit) ↦
            let (s, lt, at) =
              probe-some (accept_at mem now rl ip) (hash_ip ip % rl.table_size) rl.table_size
                v.roomy hit in
            rw (hit, accept_probe) (rw at at (accept_at-used mem now rl ip s))
      ]

pub accept-used :
    (mem : Alloc) (now : ℕ) (rl : RateLimit) (ip : Bytes)
    → IsValid rl
    → rl.used < 2 ^ 64
    → (ratelimit_accept mem now rl ip).1.used ≤ rl.used + 1
unfolding ratelimit_accept
accept-used mem now rl ip v small =
    let k = maintain-Keeps mem now v small in
    omega (arith, k.used_le, accept_probe-used mem now (maintain mem now rl) ip k.valid)

abbrev SameUsed : RateLimit → Option (Bool × RateLimit) → Type 0
SameUsed rl none = Unit {0}
SameUsed rl (some (safe, r)) = r.used ≡ rl.used

leave_taken-used :
    (now : ℕ) (rl : RateLimit) (slot : ℕ) (e : RlEntry) (same : Option Bool)
    → SameUsed rl (leave_taken now rl slot e same)
unfolding leave_taken
leave_taken-used now rl slot e none = refl
leave_taken-used now rl slot e (some false) = tt
leave_taken-used now rl slot e (some true) = refl

leave_at-used :
    (now : ℕ) (rl : RateLimit) (ip : Bytes) (slot : ℕ) → SameUsed rl (leave_at now rl ip slot)
unfolding leave_at
leave_at-used now rl ip slot = elim (Bool-cases (ltb 0 (entry_at rl slot).count)) [
  | inl counts ↦
      rw counts (leave_taken-used now rl slot (entry_at rl slot) (same_ip (entry_at rl slot) ip))
  | inr idle ↦ rw idle tt
]

pub leave-used :
    (now : ℕ) (rl : RateLimit) (ip : Bytes)
    → IsValid rl
    → (ratelimit_leave now rl ip).1.used ≡ rl.used
unfolding ratelimit_leave
leave-used now rl ip v =
    elim (Option-cases (probe (leave_at now rl ip) (hash_ip ip % rl.table_size) rl.table_size)) [
      | inl miss ↦ rw (miss, ratelimit_leave) refl
      | inr (r, hit) ↦
          let (s, lt, at) =
            probe-some (leave_at now rl ip) (hash_ip ip % rl.table_size) rl.table_size v.roomy
              hit in
          rw (hit, ratelimit_leave) (rw at at (leave_at-used now rl ip s))
    ]
