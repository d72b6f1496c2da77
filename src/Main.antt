-- ===== src/Main.antt =====
-- src/main.c: the command line. argp calls `parse_opt` once for every option, then once for every file,
-- and at last with ARGP_KEY_END; `argp_error` prints a message and exits, which is none here. `access`
-- is a parameter.
pub mod Ranges
pub mod Accepted
mod Tests
use local_marks.Prelude.{
  ℕ, zero, suc, ◌+◌, ◌-◌, ◌*◌, ◌/◌, ◌%◌, ◌^◌, ◌≤◌, ◌<◌, ◌≡◌, ◌≢◌, ◌↔◌, ◌⊎◌, inl, inr, refl, sym, ap,
  ◌∙◌, Bool, true, false, not, ◌&&◌, ◌||◌, Option, none, some, List, [], ◌∷◌, ◌++◌, map, append-nil,
  append_assoc, min, ltb, leb, ◌==◌, if◌then◌else◌, length, get_or, get_elem?, set, replicate, take,
  drop, arith, tests, All, All-get, All-set, All-append, All-replicate, length-set, length-map,
  length-append, length-replicate, length-take, length-take-le, length-drop, take_of_le,
  get_or-set_self, get_or-set_ne, get_or-replicate, Option-cases, Bool-cases, ==_iff, ltb→lt,
  lt→ltb, leb→le,
}
use local_marks.Prelude.Bytes.{Bytes, codes, str_eq}
use mathlib.Core.Option
use local_marks.Prelude.Int.{ℤ, pos, negsuc, ltb_ℤ, pos_part}
use local_marks.Log.{LogLevel, off, fatal, error, warn, info, debug, trace}
use local_marks.Http.Header.{strtoll}

abbrev pub max_bookmark_files : ℕ
max_bookmark_files = 10

pub record Arguments : Type 0 where
  pub user : Option Bytes
  pub pass : Option Bytes
  pub browser : Option Bytes
  pub host : Bytes
  pub port : ℕ
  pub threads : ℕ
  pub keep_alive : ℕ
  pub max_conns : ℕ
  pub log_file : Option Bytes
  pub print_request : Bool
  pub log_level : LogLevel
  pub bookmark_files : List Bytes
  pub tls_cert : Option Bytes
  pub tls_key : Option Bytes

-- `G_Args`; the count of the files is the length of their list
abbrev pub default_args : Arguments
default_args = record {
  user = none;
  pass = none;
  browser = none;
  host = codes "localhost";
  port = 8080;
  threads = 2;
  keep_alive = 3;
  max_conns = 0;
  log_file = none;
  print_request = false;
  log_level = info;
  bookmark_files = [];
  tls_cert = none;
  tls_key = none;
}

-- a call of `parse_opt`: its key, and the argument of those that have one
pub data Key : Type 0 where
  port_opt : Bytes → Key
  level_opt : Bytes → Key
  host_opt : Bytes → Key
  log_file_opt : Bytes → Key
  pass_opt : Bytes → Key
  user_opt : Bytes → Key
  browser_opt : Bytes → Key
  print_request_opt : Key
  tls_key_opt : Bytes → Key
  tls_cert_opt : Bytes → Key
  threads_opt : Bytes → Key
  keep_alive_opt : Bytes → Key
  max_conns_opt : Bytes → Key

-- `strtol` with the tests of the text's end and of the range. A `long` has 64 bits; a number that does
-- not fit is its largest or smallest value, which no range here has.
unfoldable pub number_in : ℕ → ℕ → Bytes → Option ℕ
number_in lo hi arg =
    let r = strtoll arg in
    if str_eq arg [] || not (str_eq r.end [])
    then none
    else if ltb_ℤ r.value (pos lo) || ltb_ℤ (pos hi) r.value
    then none
    else some (pos_part r.value)

unfoldable pub log_level_named : Bytes → Option LogLevel
log_level_named arg =
    if str_eq arg (codes "off")
    then some off
    else if str_eq arg (codes "fatal")
    then some fatal
    else if str_eq arg (codes "error")
    then some error
    else if str_eq arg (codes "warn")
    then some warn
    else if str_eq arg (codes "info")
    then some info
    else if str_eq arg (codes "debug")
    then some debug
    else if str_eq arg (codes "trace")
    then some trace
    else none

-- the options of `parse_opt`
unfoldable pub parse_opt : Arguments → Key → Option Arguments
unfolding number_in log_level_named
parse_opt a (port_opt arg) = Option.map (λ n. record a { port = n }) (number_in 1 65535 arg)
parse_opt a (level_opt arg) = Option.map (λ l. record a { log_level = l }) (log_level_named arg)
parse_opt a (host_opt arg) = some (record a { host = arg })
parse_opt a (log_file_opt arg) = some (record a { log_file = some arg })
parse_opt a (pass_opt arg) = some (record a { pass = some arg })
parse_opt a (user_opt arg) = some (record a { user = some arg })
parse_opt a (browser_opt arg) = some (record a { browser = some arg })
parse_opt a print_request_opt = some (record a { print_request = true })
parse_opt a (tls_key_opt arg) = some (record a { tls_key = some arg })
parse_opt a (tls_cert_opt arg) = some (record a { tls_cert = some arg })
parse_opt a (threads_opt arg) = Option.map (λ n. record a { threads = n }) (number_in 1 256 arg)
parse_opt a (keep_alive_opt arg) =
    Option.map (λ n. record a { keep_alive = n }) (number_in 0 3600 arg)
parse_opt a (max_conns_opt arg) =
    Option.map (λ n. record a { max_conns = n }) (number_in 0 1000 arg)

unfoldable pub is_set : Option Bytes → Bool
is_set none = false
is_set (some s) = true

-- ARGP_KEY_ARG
unfoldable pub parse_file : Arguments → Bytes → Option Arguments
unfolding is_set
parse_file a arg =
    if (is_set a.tls_cert && not (is_set a.tls_key))
      || (not (is_set a.tls_cert) && is_set a.tls_key)
    then none
    else if leb max_bookmark_files (length a.bookmark_files)
    then none
    else some (record a { bookmark_files = a.bookmark_files ++ arg ∷ [] })

unfoldable pub all_readable : (Bytes → Bool) → List Bytes → Bool
all_readable access [] = true
all_readable access (f ∷ files) = access f && all_readable access files

-- `path && access(path, R_OK) != 0`, negated
unfoldable pub readable_if_set : (Bytes → Bool) → Option Bytes → Bool
readable_if_set access none = true
readable_if_set access (some path) = access path

-- ARGP_KEY_END
unfoldable pub parse_end : (Bytes → Bool) → Arguments → Option Arguments
unfolding is_set all_readable readable_if_set
parse_end access a =
    if length a.bookmark_files == 0
    then none
    else if is_set a.user && not (is_set a.pass)
    then none
    else if not (all_readable access a.bookmark_files)
    then none
    else if not (readable_if_set access a.tls_cert)
    then none
    else if not (readable_if_set access a.tls_key)
    then none
    else some a

unfoldable pub parse_opts : Arguments → List Key → Option Arguments
unfolding parse_opt
parse_opts a [] = some a
parse_opts a (key ∷ keys) = elim (parse_opt a key) [ none ↦ none | some a' ↦ parse_opts a' keys ]

unfoldable pub parse_files : Arguments → List Bytes → Option Arguments
unfolding parse_file
parse_files a [] = some a
parse_files a (file ∷ files) = elim (parse_file a file) [
  | none ↦ none
  | some a' ↦ parse_files a' files
]

-- `argp_parse` on a command line with these options and files
unfoldable pub argp_parse : (Bytes → Bool) → List Key → List Bytes → Option Arguments
unfolding parse_opts parse_files parse_end
argp_parse access keys files = elim (parse_opts default_args keys) [
  | none ↦ none
  | some a ↦ elim (parse_files a files) [ none ↦ none | some a' ↦ parse_end access a' ]
]
