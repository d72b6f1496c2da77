-- ===== src/Server/Counted.antt =====
-- What a limiter counts, as a function of the address, and what one call of it does to that function.
use local_marks.Prelude.{
  ℕ, zero, suc, ◌+◌, ◌-◌, ◌^◌, ◌≤◌, ◌<◌, ◌≡◌, inl, inr, refl, sym, ◌∙◌, Bool, true, false, Option,
  none, some, if◌then◌else◌, arith, Bool-cases,
}
use mathlib.Core.Path.{subst}
use local_marks.Prelude.Bytes.{Bytes, str_eq, str_eq_of, str_eq_refl}
use local_marks.RateLimit.{
  RateLimit, Alloc, Verdict, allowed, denied, fault, ratelimit_accept, ratelimit_leave,
  ratelimit_create, rl_initial_size, fresh_limit,
}
use local_marks.RateLimit.Conns.{conns, table_conns-replicate}
use local_marks.RateLimit.Safety.{IsValid, Accepts, granted}
use local_marks.RateLimit.Accept.{accept-Accepts, leave-Leaves, fresh-IsValid}
use local_marks.RateLimit.Used.{accept-used, leave-used}
use local_marks.Server.Listen.{
  Arrived, leave_loop, skip, refuse, admit, on_verdict, admit_or_refuse, leave_limiter,
  start_limiter,
}

-- a limiter in order, with at most `bound` used slots, that counts `c ip` connections of every `ip`
pub record Counted (c : Bytes → ℕ) (bound : ℕ) (rl : RateLimit) : Type 0 where
  pub valid : IsValid rl
  pub same : (ip : Bytes) → conns ip rl ≡ c ip
  pub used_le : rl.used ≤ bound

abbrev pub OrCounted : (Bytes → ℕ) → ℕ → Option RateLimit → Type 0
OrCounted c bound none = Unit {0}
OrCounted c bound (some rl) = Counted c bound rl

-- one connection of `ip`, as a function of the address
unfoldable pub one_of : Bytes → Bytes → ℕ
one_of ip q = if str_eq ip q then 1 else 0

-- a change of the connections of `ip` alone
one_more :
    (c c' : Bytes → ℕ) (ip : Bytes)
    → c' ip ≡ c ip + 1
    → ((q : Bytes) → str_eq ip q ≡ false → c' q ≡ c q)
    → (q : Bytes) → c' q ≡ c q + one_of ip q
unfolding one_of
one_more c c' ip own others q = elim (Bool-cases (str_eq ip q)) [
  | inl same ↦ rw (same, sym (str_eq_of ip q same)) own
  | inr apart ↦ rw apart (omega (arith, others q apart))
]

-- How a round stands to the counts: a refusal leaves them, an admission adds one of `ip_of job`.
abbrev pub Arrives : (ℕ → Bytes) → (Bytes → ℕ) → ℕ → Arrived → Type 0
Arrives ip_of c bound leave_loop = Unit {0}
Arrives ip_of c bound skip = Unit {0}
Arrives ip_of c bound (refuse safe rl sent) = (safe ≡ true) × Counted c (bound + 1) rl
Arrives ip_of c bound (admit rl job) = OrCounted (λ q. c q + one_of (ip_of job) q) (bound + 1) rl

on_verdict-Arrives :
    (ip_of : ℕ → Bytes) (c : Bytes → ℕ) (bound job : ℕ) {rl : RateLimit} (r : Verdict × RateLimit)
    → Counted c bound rl
    → r.1.used ≤ bound + 1
    → Accepts rl (ip_of job) r
    → Arrives ip_of c bound (on_verdict job r)
unfolding on_verdict granted
on_verdict-Arrives ip_of c bound job {rl} (allowed, r) k le a = record {
  valid = a.valid;
  same =
      one_more c (λ q. conns q r) (ip_of job) (omega (arith, a.own, k.same (ip_of job)))
        (λ q ne. a.others q ne ∙ k.same q);
  used_le = le;
}
on_verdict-Arrives ip_of c bound job {rl} (denied, r) k le a = (
  refl,
  record {
    valid = a.valid;
    same = λ q. elim (Bool-cases (str_eq (ip_of job) q)) [
      | inl same ↦
          rw (sym (str_eq_of (ip_of job) q same)) (omega (arith, a.own, k.same (ip_of job)))
      | inr apart ↦ a.others q apart ∙ k.same q
    ];
    used_le = le;
  },
)
on_verdict-Arrives ip_of c bound job {rl} (fault, r) k le a = absurd (a.safe refl)

pub admit_or_refuse-Arrives :
    (ip_of : ℕ → Bytes) (c : Bytes → ℕ) (bound job : ℕ) (rl : Option RateLimit) (mem : Alloc)
    (now : ℕ)
    → OrCounted c bound rl
    → bound < 2 ^ 64 - 1
    → Arrives ip_of c bound (admit_or_refuse rl mem now (ip_of job) job)
unfolding admit_or_refuse
admit_or_refuse-Arrives ip_of c bound job none mem now k small = tt
admit_or_refuse-Arrives ip_of c bound job (some rl) mem now k small =
    on_verdict-Arrives ip_of c bound job (ratelimit_accept mem now rl (ip_of job)) k
      (omega
        (arith, k.used_le, accept-used mem now rl (ip_of job) k.valid (omega (arith, k.used_le))))
      (accept-Accepts mem now rl (ip_of job) k.valid (omega (arith, k.used_le)))

-- a connection of `ip` that ends is taken off the counts
pub leave_limiter-Counted :
    (c : Bytes → ℕ) (bound now : ℕ) (rl : Option RateLimit) (ip : Bytes)
    → OrCounted (λ q. c q + one_of ip q) bound rl
    → ((leave_limiter now rl ip).0 ≡ true) × OrCounted c bound (leave_limiter now rl ip).1
unfolding leave_limiter
leave_limiter-Counted c bound now none ip k = (refl, tt)
leave_limiter-Counted c bound now (some rl) ip k =
    let here : one_of ip ip ≡ 1 = unfold one_of in rw (str_eq_refl ip) refl in
    let l = leave-Leaves now rl ip k.valid (omega (arith, k.same ip)) in
    let back =
      one_more (λ q. conns q (ratelimit_leave now rl ip).1) (λ q. conns q rl) ip (sym l.own)
        (λ q ne. sym (l.others q ne)) in
    (
      l.safe,
      record {
        valid = l.valid;
        same = λ q. omega (arith, back q, k.same q);
        used_le = omega (arith, leave-used now rl ip k.valid, k.used_le);
      },
    )

pub start_limiter-Counted :
    (alloc_ok : Bool) (now max : ℕ) → OrCounted (λ q. 0) 0 (start_limiter alloc_ok now max)
unfolding start_limiter ratelimit_create conns
start_limiter-Counted alloc_ok now zero =
    let e : start_limiter alloc_ok now zero ≡ none = ground arith in
    subst (OrCounted (λ q. 0) 0) (sym e) tt
start_limiter-Counted false now (suc m) =
    let e : start_limiter false now (suc m) ≡ none = ground arith in
    subst (OrCounted (λ q. 0) 0) (sym e) tt
start_limiter-Counted true now (suc m) =
    let e : start_limiter true now (suc m) ≡ some (fresh_limit now (suc m)) = ground arith in
    subst (OrCounted (λ q. 0) 0) (sym e) (record {
      valid = fresh-IsValid now (suc m) (omega arith);
      same = λ q. table_conns-replicate q rl_initial_size;
      used_le = omega arith;
    })
