-- ===== src/RateLimit/Maintain.antt =====
-- What `ratelimit_accept` does to the table before it probes: the sweep of stale entries and the
-- growth. Both keep the invariant and every connection count.
use local_marks.Prelude.{
  ℕ, ◌+◌, ◌-◌, ◌%◌, ◌^◌, ◌≤◌, ◌<◌, ◌≡◌, inl, inr, refl, ◌∙◌, true, List, [], ◌∷◌, length, arith,
  All, Bool-cases,
}
use local_marks.Prelude.Bytes.{Bytes}
use local_marks.RateLimit.{RlEntry, RateLimit, is_stale, sweep_entries, ratelimit_sweep_stale}
use local_marks.RateLimit.Conns.{entry_conns, entry_conns-le, table_conns, conns}
use local_marks.RateLimit.Safety.{IsEntry, IsValid, has_ip, occupied}

-- The table after an operation holds the connections of before, and is in order.
pub record Keeps (rl r : RateLimit) : Type 0 where
  pub valid : IsValid r
  pub same : (q : Bytes) → conns q r ≡ conns q rl
  pub limit : r.max_per_ip ≡ rl.max_per_ip
  pub used_le : r.used ≤ rl.used
  pub fewer : occupied r.table ≤ occupied rl.table

is_stale-count : (now : ℕ) (e : RlEntry) → is_stale now e ≡ true → (e.count ≡ 0) × (has_ip e ≡ 1)
unfolding is_stale has_ip
is_stale-count now e h = ground arith

record Swept (max : ℕ) (es : List RlEntry) (used k : ℕ) (r : List RlEntry × ℕ) : Type 0 where
  size : length r.0 ≡ length es
  ordered : All (IsEntry max) r.0
  tracked : occupied r.0 + k ≤ r.1
  fewer : r.1 ≤ used
  held : occupied r.0 ≤ occupied es
  same : (q : Bytes) → table_conns q r.0 ≡ table_conns q es

sweep_entries-Swept :
    (max now : ℕ) (es : List RlEntry) (used k : ℕ)
    → All (IsEntry max) es
    → occupied es + k ≤ used
    → used < 2 ^ 64
    → Swept max es used k (sweep_entries now es used)
unfolding sweep_entries occupied table_conns
sweep_entries-Swept max now [] used k ok fits small = record {
  size = refl;
  ordered = tt;
  tracked = fits;
  fewer = omega arith;
  held = omega arith;
  same = λ q. refl;
}
sweep_entries-Swept max now (e ∷ es) used k ok fits small = elim (Bool-cases (is_stale now e)) [
  | inl stale ↦
      let (none_left, keyed) = is_stale-count now e stale in
      let one : (used + 2 ^ 64 - 1) % 2 ^ 64 ≡ used - 1 = omega arith in
      let t =
        sweep_entries-Swept max now es ((used + 2 ^ 64 - 1) % 2 ^ 64) k ok.1 (omega arith)
          (omega arith) in
      rw stale (record {
        size = omega (arith, t.size);
        ordered = (record { keyed = λ _. none_left; capped = ok.0.capped }, t.ordered);
        tracked = unfold has_ip in omega (arith, t.tracked);
        fewer = omega (arith, t.fewer);
        held = unfold has_ip in omega (arith, t.held);
        same = λ q. unfold entry_conns in omega (arith, t.same q, entry_conns-le q e);
      })
  | inr fresh ↦
      let t = sweep_entries-Swept max now es used (has_ip e + k) ok.1 (omega arith) small in
      rw fresh (record {
        size = omega (arith, t.size);
        ordered = (ok.0, t.ordered);
        tracked = omega (arith, t.tracked);
        fewer = t.fewer;
        held = omega (arith, t.held);
        same = λ q. omega (arith, t.same q);
      })
]

pub sweep-Keeps :
    (now : ℕ) {rl : RateLimit}
    → IsValid rl
    → rl.used < 2 ^ 64
    → Keeps rl (ratelimit_sweep_stale now rl)
unfolding ratelimit_sweep_stale conns
sweep-Keeps now {rl} v small =
    let t =
      sweep_entries-Swept rl.max_per_ip now rl.table rl.used 0 v.entries (omega (arith, v.tracked))
        small in
    record {
      valid = record {
        limited = v.limited;
        sized = t.size ∙ v.sized;
        roomy = v.roomy;
        entries = t.ordered;
        tracked = omega (arith, t.tracked);
      };
      same = t.same;
      limit = refl;
      used_le = t.fewer;
      fewer = t.held;
    }
