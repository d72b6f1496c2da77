-- ===== src/Vfs/Slots.antt =====
-- Free slots of the embedded-file table: how many there are, and that the insertion loop finds one.
use local_marks.Prelude.{
  ℕ, zero, suc, ◌+◌, ◌-◌, ◌%◌, ◌<◌, ◌≡◌, ◌≢◌, inl, inr, refl, none, some, [], ◌∷◌, length, get_or,
  set, replicate, arith, Option-cases,
}
use native.Mathlib.Decide.{ℕ_discrete}
use local_marks.Vfs.{VfsEntry, vfs_hash_cap, Slots, free_slot}

-- how many slots are taken
pub filled : Slots → ℕ
filled [] = 0
filled (s ∷ ss) = elim s [ none ↦ 0 | some e ↦ 1 ] + filled ss

pub filled-set :
    (ss : Slots) (i : ℕ) (e : VfsEntry)
    → i < length ss
    → get_or ss i none ≡ none
    → filled (set ss i (some e)) ≡ filled ss + 1
unfolding filled
filled-set [] i e h free = absurd (omega arith)
filled-set (s ∷ ss) zero e h free = ground arith
filled-set (s ∷ ss) (suc i) e h free = omega (arith, filled-set ss i e (omega arith) free)

pub filled-replicate : (n : ℕ) → filled (replicate n none) ≡ 0
unfolding filled
filled-replicate zero = refl
filled-replicate (suc n) = omega (arith, filled-replicate n)

empty_slot :
    (ss : Slots) → filled ss < length ss → (i : ℕ) × (i < length ss) × (get_or ss i none ≡ none)
unfolding filled
empty_slot [] h = absurd (omega arith)
empty_slot (none ∷ ss) h = (0, omega arith, refl)
empty_slot (some e ∷ ss) h =
    let (i, lt, free) = empty_slot ss (omega arith) in (suc i, omega arith, free)

pub free_slot-some :
    (ss : Slots) (idx left : ℕ) {i : ℕ}
    → idx < vfs_hash_cap
    → free_slot ss idx left ≡ some i
    → (i < vfs_hash_cap) × (get_or ss i none ≡ none)
unfolding free_slot
free_slot-some ss idx zero h e = cc
free_slot-some ss idx (suc left) {i} h e = elim (Option-cases (get_or ss idx none)) [
  | inl free ↦ let at : idx ≡ i = ground arith in rw (← at) (h, free)
  | inr (x, held) ↦ free_slot-some ss ((idx + 1) % vfs_hash_cap) left (omega arith) (ground arith)
]

free_slot-none :
    (ss : Slots) (idx left k : ℕ)
    → idx < vfs_hash_cap
    → free_slot ss idx left ≡ none
    → k < left
    → get_or ss ((idx + k) % vfs_hash_cap) none ≢ none
unfolding free_slot
free_slot-none ss idx zero k hi e h free = absurd (omega arith)
free_slot-none ss idx (suc left) k hi e h free = elim (ℕ_discrete k 0) [
  | yes z ↦
      let at : (idx + k) % vfs_hash_cap ≡ idx = omega arith in
      let here : get_or ss idx none ≡ none = rw at at free in ground arith
  | no nz ↦
      let at : (idx + k) % vfs_hash_cap ≡ ((idx + 1) % vfs_hash_cap + (k - 1)) % vfs_hash_cap =
        omega arith in
      elim (Option-cases (get_or ss idx none)) [
        | inl here ↦ ground arith
        | inr (x, held) ↦
            free_slot-none ss ((idx + 1) % vfs_hash_cap) left (k - 1) (omega arith) (ground arith)
              (omega arith) (rw at at free)
      ]
]

-- a table with a free slot gets the loop to one
pub free_slot-found :
    (ss : Slots) (idx : ℕ)
    → length ss ≡ vfs_hash_cap
    → filled ss < vfs_hash_cap
    → idx < vfs_hash_cap
    → free_slot ss idx vfs_hash_cap ≢ none
free_slot-found ss idx size room h e =
    let (i, lt, free) = empty_slot ss (omega arith) in
    let at : (idx + (i + 64 - idx) % 64) % 64 ≡ i = omega arith in
    free_slot-none ss idx vfs_hash_cap ((i + 64 - idx) % 64) h e (omega arith) (rw at free)
