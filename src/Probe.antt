-- ===== src/Probe.antt =====
-- Linear probing: the loop `for (i = 0; i < size; i++) { slot = (idx + i) % size; ... }` that
-- src/ratelimit.c writes three times and src/vfs_hash.c twice. The body either stops the loop with a
-- result or lets it go on.
use native.Mathlib.Decide.{ℕ_discrete, dec_le}
use native.Mathlib.Nat.{add-zero, mod-lt, mod-eq_of_lt, mod-eq-sub-mod}
use local_marks.Prelude.{
  ℕ, zero, suc, ◌+◌, ◌-◌, ◌%◌, ◌≤◌, ◌<◌, ◌≡◌, Option, none, some, arith, Option-cases, inl, inr,
}

module _ {ℓ} {R : Type ℓ} (body : ℕ → Option R) (idx size : ℕ) where
  -- the rounds from `i` on, `rounds` of them
  unfoldable pub probe_from : ℕ → ℕ → Option R
  probe_from i zero = none
  probe_from i (suc rounds) = elim (body ((idx + i) % size)) [
    | some r ↦ some r
    | none ↦ probe_from (i + 1) rounds
  ]

  unfoldable pub probe : Option R
  unfolding probe_from
  probe = probe_from 0 size

  -- A loop that stops has stopped at a slot of the table.
  probe_from-some :
      (i rounds : ℕ) {r : R}
      → 0 < size
      → probe_from i rounds ≡ some r
      → (s : ℕ) × (s < size) × (body s ≡ some r)
  unfolding probe_from
  probe_from-some i zero h e = cc
  probe_from-some i (suc rounds) {r} h e = elim (Option-cases (body ((idx + i) % size))) [
    | inl miss ↦ probe_from-some (i + 1) rounds h (ground arith)
    | inr (r', hit) ↦ ((idx + i) % size, mod-lt (idx + i) h, ground arith)
  ]

  pub probe-some : {r : R} → 0 < size → probe ≡ some r → (s : ℕ) × (s < size) × (body s ≡ some r)
  unfolding probe
  probe-some h e = probe_from-some 0 size h e

  probe_from-none :
      (i rounds j : ℕ)
      → probe_from i rounds ≡ none
      → i ≤ j
      → j < i + rounds
      → body ((idx + j) % size) ≡ none
  unfolding probe_from
  probe_from-none i zero j e lo hi = absurd (omega arith)
  probe_from-none i (suc rounds) j e lo hi = elim (ℕ_discrete i j) [
    | yes same ↦ rw (← same) (ground arith)
    | no other ↦ ground (arith, probe_from-none (i + 1) rounds j)
  ]

  -- Every slot is visited.
  visits : (s : ℕ) → idx < size → s < size → (k : ℕ) × (k < size) × ((idx + k) % size ≡ s)
  visits s hi hs = elim (dec_le idx s) [
    | yes p ↦
        let e : idx + (s - idx) ≡ s = omega arith in (s - idx, omega arith, rw e (mod-eq_of_lt hs))
    | no p ↦
        let e : idx + (s + size - idx) ≡ s + size = omega arith in
        let back : s + size - size ≡ s = omega arith in
        (
          s + size - idx,
          omega arith,
          rw (e, mod-eq-sub-mod {n = s + size} {m = size} (omega arith), back) (mod-eq_of_lt hs),
        )
  ]

  -- A loop that runs to its end has found nothing at any slot.
  pub probe-none : (s : ℕ) → idx < size → s < size → probe ≡ none → body s ≡ none
  unfolding probe
  probe-none s hi hs e =
      let (k, hk, at) = visits s hi hs in
      rw (← at) (probe_from-none 0 size k e (omega arith) (omega arith))

  probe_from-first :
      (rounds : ℕ) {r : R}
      → 0 < rounds
      → idx < size
      → body idx ≡ some r
      → probe_from 0 rounds ≡ some r
  unfolding probe_from
  probe_from-first zero h hi e = absurd (omega arith)
  probe_from-first (suc rounds) h hi e =
      let at : (idx + 0) % size ≡ idx = rw add-zero (mod-eq_of_lt hi) in ground arith

  -- The loop starts at the slot of the hash.
  pub probe-first : {r : R} → idx < size → body idx ≡ some r → probe ≡ some r
  unfolding probe
  probe-first hi e = probe_from-first size (omega arith) hi e
