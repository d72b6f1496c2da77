-- ===== src/RateLimit/Tests.antt =====
-- Runs of the limiter, and its theorems at concrete inputs.
use local_marks.Prelude.{◌<◌, ◌≡◌, refl, true, arith}
use local_marks.Prelude.Bytes.{Bytes, str_eq, codes}
use local_marks.Hash.{hash_ip}
use local_marks.Probe.{probe}
use local_marks.RateLimit.{
  RateLimit, allowed, Alloc, ratelimit_accept, is_vacant, same_ip, fresh_limit, ratelimit_leave,
}
use local_marks.RateLimit.Conns.{conns}
use local_marks.RateLimit.Safety.{IsValid, Accepts}
use local_marks.RateLimit.Accept.{accept-Accepts, leave-Leaves, fresh-IsValid}
use local_marks.RateLimit.Refusal.{accept-allowed, accept-over_limit}

abbrev memory : Alloc
memory = record { calloc_ok = true; strdup_ok = true }

-- Two addresses whose hashes are equal modulo 256.
abbrev first_ip : Bytes
first_ip = codes "10.0.0.121"

abbrev second_ip : Bytes
second_ip = codes "10.0.0.202"

abbrev fresh : RateLimit
fresh = fresh_limit 0 1

-- Both connect, the first one leaves, and a minute later its entry is swept.
running : Unit {0}
unfolding ratelimit_accept ratelimit_leave conns probe hash_ip is_vacant same_ip str_eq
running = tt

steps : RateLimit
steps =
    let a = (ratelimit_accept memory 1 fresh first_ip).1 in
    let b = (ratelimit_accept memory 1 a second_ip).1 in (ratelimit_leave 2 b first_ip).1

-- The second address is then allowed a second connection under a limit of one.
second_ip_twice :
    let r = ratelimit_accept memory 70 steps second_ip in
    (r.0 ≡ allowed) × (conns second_ip r.1 ≡ 2)
unfolding steps running
second_ip_twice = (refl, refl)

abbrev one_in : RateLimit
one_in = (ratelimit_accept memory 1 fresh first_ip).1

abbrev two_in : RateLimit
two_in = (ratelimit_accept memory 1 one_in second_ip).1

abbrev first_left : RateLimit
first_left = (ratelimit_leave 2 two_in first_ip).1

accept-Accepts_example : Accepts fresh first_ip (ratelimit_accept memory 1 fresh first_ip)
accept-Accepts_example =
    accept-Accepts memory 1 fresh first_ip (fresh-IsValid 0 1 (omega arith)) (omega arith)

two_in-IsValid : IsValid two_in
two_in-IsValid =
    (accept-Accepts memory 1 one_in second_ip accept-Accepts_example.valid
      (unfold running in omega arith)).valid

first_left-IsValid : IsValid first_left
first_left-IsValid =
    (leave-Leaves 2 two_in first_ip two_in-IsValid (unfold running in omega arith)).valid

accept-allowed_example : (ratelimit_accept memory 1 one_in second_ip).0 ≡ allowed
accept-allowed_example =
    accept-allowed memory 1 one_in second_ip accept-Accepts_example.valid refl refl
      (unfold running in omega arith) (unfold running in omega arith)
      (unfold running in omega arith)

accept-over_limit_example :
    ((ratelimit_accept memory 70 first_left second_ip).0 ≡ allowed)
    × ((ratelimit_accept memory 70 first_left second_ip).1.max_per_ip
        < conns second_ip (ratelimit_accept memory 70 first_left second_ip).1)
accept-over_limit_example =
    accept-over_limit memory 70 first_left second_ip first_ip first_left-IsValid
      (unfold running in omega arith) (unfold running in omega arith) refl
      (unfold running in omega arith) (unfold running in omega arith) (unfold running in refl)
      (unfold running in refl) (unfold running in omega arith)
