-- ===== src/RateLimit.antt =====
-- src/ratelimit.c: the per-IP connection limiter, an open-addressing hash table. `table_size` is kept
-- beside the table as in the struct; the clock and the outcome of an allocation are arguments. The
-- mutex makes each operation one step. An operation that would call `strcmp` on a NULL `ip` returns
-- `fault`.
pub mod Conns
pub mod Safety
pub mod Slot
pub mod Maintain
pub mod Grow
pub mod Accept
pub mod Used
pub mod Refusal
mod Tests
use local_marks.Prelude.{
  ℕ, zero, suc, ◌+◌, ◌-◌, ◌*◌, ◌%◌, ◌^◌, ◌≤◌, ◌<◌, Bool, true, false, ◌&&◌, ◌||◌, not, Option, none,
  some, List, [], ◌∷◌, ltb, leb, ◌==◌, if◌then◌else◌, length, get_or, set, replicate,
}
use local_marks.Prelude.Bytes.{Bytes, str_eq}
use local_marks.Hash.{hash_ip}
use local_marks.Probe.{probe}

pub record RlEntry : Type 0 where
  pub ip : Option Bytes
  pub count : ℕ
  pub last_activity : ℕ

pub record RateLimit : Type 0 where
  pub max_per_ip : ℕ
  pub table : List RlEntry
  pub table_size : ℕ
  pub used : ℕ
  pub last_sweep : ℕ

abbrev pub rl_initial_size : ℕ
rl_initial_size = 256

abbrev pub rl_growth_factor : ℕ
rl_growth_factor = 2

abbrev pub rl_stale_timeout_secs : ℕ
rl_stale_timeout_secs = 60

-- what `calloc` leaves in a slot
abbrev pub vacant : RlEntry
vacant = record { ip = none; count = 0; last_activity = 0 }

-- `rl->table[slot]`
abbrev pub entry_at : RateLimit → ℕ → RlEntry
entry_at rl slot = get_or rl.table slot vacant

pub data Verdict : Type 0 where
  allowed denied fault : Verdict

-- `strcmp(entry.ip, ip) == 0`, or none for a NULL `entry.ip`
unfoldable pub same_ip : RlEntry → Bytes → Option Bool
same_ip e ip = elim e.ip [ none ↦ none | some s ↦ some (str_eq s ip) ]

-- the key of an entry, for the hash: a NULL `ip` is read as "" and never occurs at `count > 0`
unfoldable pub ip_of : RlEntry → Bytes
ip_of e = elim e.ip [ none ↦ [] | some s ↦ s ]

abbrev pub free_at : List RlEntry → ℕ → Option ℕ
free_at t slot = if (get_or t slot vacant).count == 0 then some slot else none

-- the inner loop of `ratelimit_grow`: the first slot of `new_table` with `count == 0`
unfoldable pub place : ℕ → List RlEntry → RlEntry → List RlEntry
unfolding ip_of
place new_size new_table e =
    elim (probe (free_at new_table) (hash_ip (ip_of e) % new_size) new_size) [
      | some slot ↦ set new_table slot e
      | none ↦ new_table
    ]

-- the outer loop of `ratelimit_grow`, over the old table
unfoldable pub rehash : ℕ → List RlEntry → List RlEntry → List RlEntry
unfolding place
rehash new_size new_table [] = new_table
rehash new_size new_table (e ∷ es) =
    rehash new_size (if ltb 0 e.count then place new_size new_table e else new_table) es

-- `calloc_ok` tells whether the allocation succeeds; on failure the table stays.
unfoldable pub ratelimit_grow : Bool → RateLimit → RateLimit
unfolding rehash
ratelimit_grow false rl = rl
ratelimit_grow true rl =
    let new_size = rl.table_size * rl_growth_factor in
    record rl {
      table = rehash new_size (replicate new_size vacant) rl.table;
      table_size = new_size;
    }

-- one entry of `ratelimit_sweep_stale`, with the running `used`
unfoldable pub is_stale : ℕ → RlEntry → Bool
is_stale now e = elim e.ip [
  | none ↦ false
  | some s ↦ e.count == 0 && ltb rl_stale_timeout_secs (now - e.last_activity)
]

unfoldable pub sweep_entries : ℕ → List RlEntry → ℕ → List RlEntry × ℕ
unfolding is_stale
sweep_entries now [] used = ([], used)
sweep_entries now (e ∷ es) used =
    let stale = is_stale now e in
    let (es', used') =
      sweep_entries now es (if stale then (used + 2 ^ 64 - 1) % 2 ^ 64 else used) in
    ((if stale then record e { ip = none } else e) ∷ es', used')

unfoldable pub ratelimit_sweep_stale : ℕ → RateLimit → RateLimit
unfolding sweep_entries
ratelimit_sweep_stale now rl =
    let (table, used) = sweep_entries now rl.table rl.used in
    record rl { table = table; used = used }

-- what `ratelimit_create` fills in
abbrev pub fresh_limit : ℕ → ℕ → RateLimit
fresh_limit now max_conns_per_ip = record {
  max_per_ip = max_conns_per_ip;
  table = replicate rl_initial_size vacant;
  table_size = rl_initial_size;
  used = 0;
  last_sweep = now;
}

-- `ratelimit_create`; none is the NULL that stands for "no limit" or for a failed allocation.
-- A negative argument is 0 here.
unfoldable pub ratelimit_create : Bool → ℕ → ℕ → Option RateLimit
ratelimit_create alloc_ok now max_conns_per_ip =
    if leb max_conns_per_ip 0 || not alloc_ok then none else some (fresh_limit now max_conns_per_ip)

-- what the allocator answers in one call of `ratelimit_accept`
pub record Alloc : Type 0 where
  pub calloc_ok : Bool
  pub strdup_ok : Bool

-- the head of `ratelimit_accept`: a sweep every `rl_stale_timeout_secs`, a growth from three quarters
unfoldable pub sweep_if_due : ℕ → RateLimit → RateLimit
unfolding ratelimit_sweep_stale
sweep_if_due now rl =
    if leb rl_stale_timeout_secs (now - rl.last_sweep)
    then record (ratelimit_sweep_stale now rl) { last_sweep = now }
    else rl

unfoldable pub grow_if_loaded : Alloc → RateLimit → RateLimit
unfolding ratelimit_grow
grow_if_loaded mem rl =
    if leb (rl.table_size * 3 % 2 ^ 64) (rl.used * 4 % 2 ^ 64)
    then ratelimit_grow mem.calloc_ok rl
    else rl

unfoldable pub maintain : Alloc → ℕ → RateLimit → RateLimit
unfolding sweep_if_due grow_if_loaded
maintain mem now rl = grow_if_loaded mem (sweep_if_due now rl)

unfoldable pub is_vacant : RlEntry → Bool
is_vacant e = e.count == 0 && elim e.ip [ none ↦ true | some s ↦ false ]

-- a slot with an address: `same` is what `strcmp` says of it
unfoldable pub accept_taken :
    ℕ → RateLimit → ℕ → RlEntry → Option Bool → Option (Verdict × RateLimit)
accept_taken now rl slot e none = some (fault, rl)
accept_taken now rl slot e (some false) = none
accept_taken now rl slot e (some true) =
    if leb rl.max_per_ip e.count
    then some (denied, record rl { table = set rl.table slot (record e { last_activity = now }) })
    else some (
      allowed,
      record rl {
        table = set rl.table slot (record e { count = e.count + 1; last_activity = now });
      },
    )

-- one round of the probe loop of `ratelimit_accept`: none goes on to the next slot
unfoldable pub accept_at : Alloc → ℕ → RateLimit → Bytes → ℕ → Option (Verdict × RateLimit)
unfolding accept_taken
accept_at mem now rl ip slot =
    let e = entry_at rl slot in
    if is_vacant e
    then (if mem.strdup_ok
        then some (
          allowed,
          record rl {
            table = set rl.table slot (record { ip = some ip; count = 1; last_activity = now });
            used = (rl.used + 1) % 2 ^ 64;
          },
        )
        else some (denied, rl))
    else accept_taken now rl slot e (same_ip e ip)

unfoldable pub accept_probe : Alloc → ℕ → RateLimit → Bytes → Verdict × RateLimit
unfolding accept_at
accept_probe mem now rl ip =
    elim (probe (accept_at mem now rl ip) (hash_ip ip % rl.table_size) rl.table_size) [
      | some r ↦ r
      | none ↦ (denied, rl)
    ]

unfoldable pub ratelimit_accept : Alloc → ℕ → RateLimit → Bytes → Verdict × RateLimit
unfolding maintain accept_probe
ratelimit_accept mem now rl ip = accept_probe mem now (maintain mem now rl) ip

-- a slot with a positive count; the flag is false for a `strcmp` on NULL
unfoldable pub leave_taken : ℕ → RateLimit → ℕ → RlEntry → Option Bool → Option (Bool × RateLimit)
leave_taken now rl slot e none = some (false, rl)
leave_taken now rl slot e (some false) = none
leave_taken now rl slot e (some true) = some (
  true,
  record rl { table = set rl.table slot (record e { count = e.count - 1; last_activity = now }) },
)

-- one round of the probe loop of `ratelimit_leave`
unfoldable pub leave_at : ℕ → RateLimit → Bytes → ℕ → Option (Bool × RateLimit)
unfolding leave_taken
leave_at now rl ip slot =
    let e = entry_at rl slot in
    if ltb 0 e.count then leave_taken now rl slot e (same_ip e ip) else none

unfoldable pub ratelimit_leave : ℕ → RateLimit → Bytes → Bool × RateLimit
unfolding leave_at
ratelimit_leave now rl ip =
    elim (probe (leave_at now rl ip) (hash_ip ip % rl.table_size) rl.table_size) [
      | some r ↦ r
      | none ↦ (true, rl)
    ]
