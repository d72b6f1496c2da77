-- ===== src/RateLimit/Slot.antt =====
-- One slot of the limiter's table, as one round of the probe loops of `ratelimit_accept` and
-- `ratelimit_leave` meets it.
use local_marks.Prelude.{
  ℕ, ◌+◌, ◌-◌, ◌%◌, ◌^◌, ◌≤◌, ◌<◌, ◌≡◌, refl, Bool, true, false, Option, none, some, ltb, leb,
  if◌then◌else◌, set, arith, All-get, All-set, length-set, Option-cases, Bool-cases, inl, inr,
}
use local_marks.Prelude.Bytes.{Bytes, str_eq, str_eq_congr, str_eq_refl}
use local_marks.RateLimit.{
  RlEntry, RateLimit, vacant, entry_at, Verdict, allowed, denied, Alloc, accept_at, leave_at,
  accept_taken, leave_taken, is_vacant, same_ip,
}
use local_marks.RateLimit.Conns.{entry_conns, conns, table_conns-set}
use local_marks.RateLimit.Safety.{
  IsEntry, IsValid, has_ip, occupied, occupied-set, granted, Accepts,
}

abbrev pub OrNext : (Verdict × RateLimit → Type 0) → Option (Verdict × RateLimit) → Type 0
OrNext P none = Unit {0}
OrNext P (some r) = P r

-- What a call of `ratelimit_leave` did that met a slot with connections of `ip`: one less of them.
pub record Leaves (rl : RateLimit) (ip : Bytes) (r : Bool × RateLimit) : Type 0 where
  pub safe : r.0 ≡ true
  pub valid : IsValid r.1
  pub own : conns ip r.1 + 1 ≡ conns ip rl
  pub others : (q : Bytes) → str_eq ip q ≡ false → conns q r.1 ≡ conns q rl

abbrev pub OrLeaves : RateLimit → Bytes → Option (Bool × RateLimit) → Type 0
OrLeaves rl ip none = Unit {0}
OrLeaves rl ip (some r) = Leaves rl ip r

same_ip-some :
    (e : RlEntry) (ip : Bytes) {s : Bytes} → e.ip ≡ some s → same_ip e ip ≡ some (str_eq s ip)
unfolding same_ip
same_ip-some e ip found = ground arith

module _ (mem : Alloc) (now : ℕ) (rl : RateLimit) (ip : Bytes) (v : IsValid rl) (slot : ℕ)
    (h : slot < rl.table_size) where
  entry : IsEntry rl.max_per_ip (entry_at rl slot)
  entry = All-get (IsEntry rl.max_per_ip) rl.table slot vacant v.entries (omega arith)

  -- any write to the slot, with an entry that is in order
  write-IsValid :
      (e' : RlEntry) (used : ℕ)
      → IsEntry rl.max_per_ip e'
      → occupied rl.table + has_ip e' ≤ used + has_ip (entry_at rl slot)
      → IsValid (record rl { table = set rl.table slot e'; used = used })
  write-IsValid e' used ok u = record {
    limited = v.limited;
    sized = omega (arith, length-set rl.table slot e');
    roomy = v.roomy;
    entries = All-set (IsEntry rl.max_per_ip) rl.table slot e' v.entries ok;
    tracked = omega (arith, occupied-set rl.table slot e');
  }

  -- a slot that is not vacant in an ordered table has an address
  claimed : is_vacant (entry_at rl slot) ≡ false → (s : Bytes) × ((entry_at rl slot).ip ≡ some s)
  unfolding is_vacant
  claimed nv = elim (Option-cases (entry_at rl slot).ip) [
    | inl none_ip ↦ ground (arith, entry.keyed none_ip)
    | inr found ↦ found
  ]

  held : ltb 0 (entry_at rl slot).count ≡ true → (s : Bytes) × ((entry_at rl slot).ip ≡ some s)
  held pos = elim (Option-cases (entry_at rl slot).ip) [
    | inl none_ip ↦ ground (arith, entry.keyed none_ip)
    | inr found ↦ found
  ]

  -- a slot with no address is taken for a new one
  fresh-Accepts :
      rl.used < 2 ^ 64 - 1
      → is_vacant (entry_at rl slot) ≡ true
      → Accepts rl ip (
        allowed,
        record rl {
          table = set rl.table slot (record { ip = some ip; count = 1; last_activity = now });
          used = (rl.used + 1) % 2 ^ 64;
        },
      )
  unfolding is_vacant conns granted entry_conns has_ip
  fresh-Accepts room vac = record {
    safe = ground arith;
    valid =
        write-IsValid (record { ip = some ip; count = 1; last_activity = now })
          ((rl.used + 1) % 2 ^ 64) (record { keyed = λ n. cc; capped = v.limited })
          (omega (arith, v.tracked));
    own = ground (
      arith,
      str_eq_refl ip,
      table_conns-set ip rl.table slot (record { ip = some ip; count = 1; last_activity = now }),
    );
    others = λ q ne. ground (
      arith,
      table_conns-set q rl.table slot (record { ip = some ip; count = 1; last_activity = now }),
    );
    kept = refl;
  }

  -- a call that leaves all as it was
  refused : Accepts rl ip (denied, rl)
  unfolding granted
  refused = record {
    safe = ground arith;
    valid = v;
    own = omega arith;
    others = λ q ne. refl;
    kept = refl;
  }

  -- a new count for the address of the slot; `grant` is what the verdict adds
  module _ (s : Bytes) (found : (entry_at rl slot).ip ≡ some s) (same : str_eq s ip ≡ true) where
    count_to : ℕ → RateLimit
    count_to n = record rl {
      table = set rl.table slot (record (entry_at rl slot) { count = n; last_activity = now });
    }

    count_to-IsValid : (n : ℕ) → n ≤ rl.max_per_ip → IsValid (count_to n)
    unfolding count_to has_ip
    count_to-IsValid n le =
        write-IsValid (record (entry_at rl slot) { count = n; last_activity = now }) rl.used
          (record { keyed = λ e. cc; capped = le }) (omega (arith, v.tracked))

    conns-count_to_own :
        (n : ℕ) → conns ip (count_to n) + (entry_at rl slot).count ≡ conns ip rl + n
    unfolding count_to conns entry_conns
    conns-count_to_own n = ground (
      arith,
      table_conns-set ip rl.table slot
          (record (entry_at rl slot) { count = n; last_activity = now }),
    )

    conns-count_to_other :
        (n : ℕ) (q : Bytes) → str_eq ip q ≡ false → conns q (count_to n) ≡ conns q rl
    unfolding count_to conns entry_conns
    conns-count_to_other n q ne = ground (
      arith,
      str_eq_congr s ip q same,
      table_conns-set q rl.table slot
          (record (entry_at rl slot) { count = n; last_activity = now }),
    )

    match_Leaves :
        ltb 0 (entry_at rl slot).count ≡ true
        → Leaves rl ip (true, count_to ((entry_at rl slot).count - 1))
    match_Leaves pos = record {
      safe = refl;
      valid = count_to-IsValid ((entry_at rl slot).count - 1) (omega (arith, entry.capped));
      own = ground (arith, conns-count_to_own ((entry_at rl slot).count - 1));
      others = conns-count_to_other ((entry_at rl slot).count - 1);
    }

    match_Accepts :
        (full : Bool)
        → leb rl.max_per_ip (entry_at rl slot).count ≡ full
        → Accepts rl ip (
            if full
            then (denied, count_to (entry_at rl slot).count)
            else (allowed, count_to ((entry_at rl slot).count + 1)))
    unfolding granted
    match_Accepts true at = record {
      safe = ground arith;
      valid = count_to-IsValid (entry_at rl slot).count entry.capped;
      own = omega (arith, conns-count_to_own (entry_at rl slot).count);
      others = conns-count_to_other (entry_at rl slot).count;
      kept = unfold count_to in refl;
    }
    match_Accepts false at = record {
      safe = ground arith;
      valid = count_to-IsValid ((entry_at rl slot).count + 1) (ground arith);
      own = omega (arith, conns-count_to_own ((entry_at rl slot).count + 1));
      others = conns-count_to_other ((entry_at rl slot).count + 1);
      kept = unfold count_to in refl;
    }

  -- One round of the probe loop either goes on or ends the call in order.
  pub accept_at-Accepts :
      rl.used < 2 ^ 64 - 1 → OrNext (Accepts rl ip) (accept_at mem now rl ip slot)
  unfolding accept_at count_to
  accept_at-Accepts room = elim (Bool-cases (is_vacant (entry_at rl slot))) [
    | inl vac ↦ rw vac (on_alloc mem.strdup_ok (fresh-Accepts room vac))
    | inr taken ↦ let (s, found) = claimed taken in rw taken (on_match s found (str_eq s ip) refl)
  ]
    where
      on_alloc :
          (b : Bool) {r : Verdict × RateLimit}
          → Accepts rl ip r
          → OrNext (Accepts rl ip) (if b then some r else some (denied, rl))
      on_alloc true a = a
      on_alloc false a = refused

      on_match :
          (s : Bytes)
          → (entry_at rl slot).ip ≡ some s
          → (b : Bool) → str_eq s ip ≡ b
          → OrNext
              (Accepts rl ip)
              (accept_taken now rl slot (entry_at rl slot) (same_ip (entry_at rl slot) ip))
      on_match s found false e = rw (same_ip-some (entry_at rl slot) ip found, e) tt
      on_match s found true e =
          rw (same_ip-some (entry_at rl slot) ip found, e)
            (on_count (leb rl.max_per_ip (entry_at rl slot).count) (match_Accepts s found e _ refl))
        where
          on_count :
              (full : Bool)
              → Accepts rl ip (
                  if full
                  then (denied, count_to s found e (entry_at rl slot).count)
                  else (allowed, count_to s found e ((entry_at rl slot).count + 1)))
              → OrNext (Accepts rl ip) (
                  if full
                  then some (denied, count_to s found e (entry_at rl slot).count)
                  else some (allowed, count_to s found e ((entry_at rl slot).count + 1)))
          on_count true a = a
          on_count false a = a

  -- likewise of `ratelimit_leave`
  pub leave_at-Leaves : OrLeaves rl ip (leave_at now rl ip slot)
  unfolding leave_at
  leave_at-Leaves = elim (Bool-cases (ltb 0 (entry_at rl slot).count)) [
    | inl some_conns ↦
        let (s, found) = held some_conns in
        rw (some_conns, same_ip-some (entry_at rl slot) ip found)
          (on_match s found some_conns (str_eq s ip) refl)
    | inr no_conns ↦ rw no_conns tt
  ]
    where
      on_match :
          (s : Bytes)
          → (entry_at rl slot).ip ≡ some s
          → ltb 0 (entry_at rl slot).count ≡ true
          → (b : Bool) → str_eq s ip ≡ b
          → OrLeaves rl ip (leave_taken now rl slot (entry_at rl slot) (some b))
      on_match s found pos false e = tt
      on_match s found pos true e = unfold count_to in match_Leaves s found e pos
