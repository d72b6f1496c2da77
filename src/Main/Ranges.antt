-- ===== src/Main/Ranges.antt =====
-- The options of the command line and the ranges of their numbers (src/main.c).
use local_marks.Prelude.{
  ℕ, ◌≤◌, ◌≡◌, inl, inr, refl, not, ◌||◌, Option, none, some, List, [], ◌∷◌, if◌then◌else◌, arith,
  Option-cases, Bool-cases,
}
use mathlib.Core.Option
use mathlib.Core.Path.{subst}
use local_marks.Prelude.Bytes.{Bytes, str_eq}
use local_marks.Prelude.Int.{ℤ, pos, negsuc, ltb_ℤ, pos_part}
use local_marks.Http.Header.{strtoll}
use local_marks.Main.{
  Arguments, Key, port_opt, level_opt, host_opt, log_file_opt, pass_opt, user_opt, browser_opt,
  print_request_opt, tls_key_opt, tls_cert_opt, threads_opt, keep_alive_opt, max_conns_opt,
  number_in, log_level_named, parse_opt, parse_opts,
}

-- the numbers are in the ranges that the options document
pub record InRange (port threads keep_alive max_conns : ℕ) : Type 0 where
  pub port_in : (1 ≤ port) × (port ≤ 65535)
  pub threads_in : (1 ≤ threads) × (threads ≤ 256)
  pub keep_alive_in : keep_alive ≤ 3600
  pub max_conns_in : max_conns ≤ 1000

abbrev pub Ranges : Arguments → Type 0
Ranges a = InRange a.port a.threads a.keep_alive a.max_conns

unfoldable in_range : ℕ → ℕ → ℤ → Option ℕ
in_range lo hi v = if ltb_ℤ v (pos lo) || ltb_ℤ (pos hi) v then none else some (pos_part v)

in_range-bounds : (lo hi : ℕ) (v : ℤ) {n : ℕ} → in_range lo hi v ≡ some n → (lo ≤ n) × (n ≤ hi)
unfolding in_range
in_range-bounds lo hi (pos k) e = ground arith
in_range-bounds lo hi (negsuc k) e = absurd (ground arith)

number_in-bounds :
    (lo hi : ℕ) (arg : Bytes) {n : ℕ} → number_in lo hi arg ≡ some n → (lo ≤ n) × (n ≤ hi)
unfolding number_in
number_in-bounds lo hi arg e =
    elim (Bool-cases (str_eq arg [] || not (str_eq (strtoll arg).end []))) [
      | inl junk ↦ absurd (ground arith)
      | inr digits ↦ in_range-bounds lo hi (strtoll arg).value (unfold in_range in ground arith)
    ]

abbrev pub OrElse : (Arguments → Type 0) → Option Arguments → Type 0
OrElse P none = Unit {0}
OrElse P (some a) = P a

-- arguments with a number that is in its range, or an error
map-OrElse :
    {A : Type 0} (P : Arguments → Type 0) (f : A → Arguments) (o : Option A)
    → ((x : A) → o ≡ some x → P (f x))
    → OrElse P (Option.map f o)
map-OrElse P f none k = tt
map-OrElse P f (some x) k = k x refl

-- in range, and no file yet
abbrev pub Optioned : Arguments → Type 0
Optioned a = Ranges a × (a.bookmark_files ≡ [])

parse_opt-Optioned : (a : Arguments) (key : Key) → Optioned a → OrElse Optioned (parse_opt a key)
unfolding parse_opt
parse_opt-Optioned a (port_opt arg) (r, e) =
    map-OrElse Optioned (λ n. record a { port = n }) (number_in 1 65535 arg)
      (λ n at. (
        record {
          port_in = number_in-bounds 1 65535 arg at;
          threads_in = r.threads_in;
          keep_alive_in = r.keep_alive_in;
          max_conns_in = r.max_conns_in;
        },
        e,
      ))
parse_opt-Optioned a (level_opt arg) r =
    map-OrElse Optioned (λ l. record a { log_level = l }) (log_level_named arg) (λ l at. r)
parse_opt-Optioned a (host_opt arg) r = r
parse_opt-Optioned a (log_file_opt arg) r = r
parse_opt-Optioned a (pass_opt arg) r = r
parse_opt-Optioned a (user_opt arg) r = r
parse_opt-Optioned a (browser_opt arg) r = r
parse_opt-Optioned a print_request_opt r = r
parse_opt-Optioned a (tls_key_opt arg) r = r
parse_opt-Optioned a (tls_cert_opt arg) r = r
parse_opt-Optioned a (threads_opt arg) (r, e) =
    map-OrElse Optioned (λ n. record a { threads = n }) (number_in 1 256 arg)
      (λ n at. (
        record {
          port_in = r.port_in;
          threads_in = number_in-bounds 1 256 arg at;
          keep_alive_in = r.keep_alive_in;
          max_conns_in = r.max_conns_in;
        },
        e,
      ))
parse_opt-Optioned a (keep_alive_opt arg) (r, e) =
    map-OrElse Optioned (λ n. record a { keep_alive = n }) (number_in 0 3600 arg)
      (λ n at. (
        record {
          port_in = r.port_in;
          threads_in = r.threads_in;
          keep_alive_in = (number_in-bounds 0 3600 arg at).1;
          max_conns_in = r.max_conns_in;
        },
        e,
      ))
parse_opt-Optioned a (max_conns_opt arg) (r, e) =
    map-OrElse Optioned (λ n. record a { max_conns = n }) (number_in 0 1000 arg)
      (λ n at. (
        record {
          port_in = r.port_in;
          threads_in = r.threads_in;
          keep_alive_in = r.keep_alive_in;
          max_conns_in = (number_in-bounds 0 1000 arg at).1;
        },
        e,
      ))

pub parse_opts-Optioned :
    (keys : List Key) (a : Arguments) → Optioned a → OrElse Optioned (parse_opts a keys)
unfolding parse_opts
parse_opts-Optioned [] a r = r
parse_opts-Optioned (key ∷ keys) a r = elim (Option-cases (parse_opt a key)) [
  | inl stop ↦ rw (parse_opts, stop) tt
  | inr (a', ok) ↦
      rw (parse_opts, ok)
        (parse_opts-Optioned keys a' (subst (OrElse Optioned) ok (parse_opt-Optioned a key r)))
]
