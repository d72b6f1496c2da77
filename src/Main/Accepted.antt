-- ===== src/Main/Accepted.antt =====
-- What `server_run` may rely on when `argp_parse` has returned.
use local_marks.Prelude.{
  ◌≤◌, ◌≡◌, ◌⊎◌, inl, inr, refl, ap, Bool, true, false, not, ◌&&◌, ◌||◌, some, List, [], ◌∷◌, ◌++◌,
  append-nil, append_assoc, leb, ◌==◌, length, arith, All, length-append, Option-cases, Bool-cases,
}
use mathlib.Core.Path.{subst}
use local_marks.Prelude.Bytes.{Bytes}
use local_marks.Main.{
  Arguments, default_args, max_bookmark_files, Key, is_set, parse_file, all_readable,
  readable_if_set, parse_end, parse_opts, parse_files, argp_parse,
}
use local_marks.Main.Ranges.{Ranges, OrElse, Optioned, parse_opts-Optioned}

-- What is true of the arguments that `argp_parse` accepts with these files.
pub record IsAccepted (access : Bytes → Bool) (files : List Bytes) (a : Arguments) : Type 0 where
  pub ranges : Ranges a
  pub collected : a.bookmark_files ≡ files
  pub counted : (1 ≤ length files) × (length files ≤ max_bookmark_files)
  pub readable : All (λ f. access f ≡ true) files
  pub login : (is_set a.user ≡ false) ⊎ (is_set a.pass ≡ true)
  pub tls_pair : is_set a.tls_cert ≡ is_set a.tls_key
  pub tls_readable :
      (readable_if_set access a.tls_cert ≡ true) × (readable_if_set access a.tls_key ≡ true)

-- in range, with these files, and with a TLS pair once there is one
pub record Collected (files : List Bytes) (a : Arguments) : Type 0 where
  pub ranges : Ranges a
  pub collected : a.bookmark_files ≡ files
  pub fit : length files ≤ max_bookmark_files
  pub pair : (files ≡ []) ⊎ (is_set a.tls_cert ≡ is_set a.tls_key)

same_bool : (x y : Bool) → (x && not y || not x && y) ≡ false → x ≡ y
same_bool true true e = refl
same_bool true false e = absurd (ground arith)
same_bool false true e = absurd (ground arith)
same_bool false false e = refl

parse_file-Collected :
    (files : List Bytes) (a : Arguments) (file : Bytes)
    → Collected files a
    → OrElse (Collected (files ++ file ∷ [])) (parse_file a file)
unfolding parse_file
parse_file-Collected files a file k =
    elim (Bool-cases (
      (is_set a.tls_cert && not (is_set a.tls_key))
      || (not (is_set a.tls_cert) && is_set a.tls_key))) [
        | inl odd ↦ rw odd tt
        | inr even ↦ elim (Bool-cases (leb max_bookmark_files (length a.bookmark_files))) [
          | inl full ↦ rw (even, full) tt
          | inr room ↦
              rw (even, room)
                (record {
                  ranges = k.ranges;
                  collected = rw (k.collected) refl;
                  fit = ground (arith, length-append files (file ∷ []), ap length k.collected);
                  pair = inr (same_bool (is_set a.tls_cert) (is_set a.tls_key) even);
                })
        ]
      ]

parse_files-Collected :
    (files more : List Bytes) (a : Arguments)
    → Collected files a
    → OrElse (Collected (files ++ more)) (parse_files a more)
unfolding parse_files
parse_files-Collected files [] a k = rw (append-nil files) k
parse_files-Collected files (file ∷ more) a k = elim (Option-cases (parse_file a file)) [
  | inl stop ↦ rw (parse_files, stop) tt
  | inr (a', ok) ↦
      rw (parse_files, ok)
        (subst (λ l. OrElse (Collected l) (parse_files a' more))
          (append_assoc files (file ∷ []) more)
          (parse_files-Collected (files ++ file ∷ []) more a' (
            subst (OrElse (Collected (files ++ file ∷ []))) ok
              (parse_file-Collected files a file k))))
]

all_readable-All :
    (access : Bytes → Bool) (files : List Bytes)
    → all_readable access files ≡ true
    → All (λ f. access f ≡ true) files
unfolding all_readable
all_readable-All access [] e = tt
all_readable-All access (f ∷ files) e = (ground arith, all_readable-All access files (ground arith))

accepted :
    (access : Bytes → Bool) (files : List Bytes) (a : Arguments)
    → Collected files a
    → (length a.bookmark_files == 0) ≡ false
    → (is_set a.user && not (is_set a.pass)) ≡ false
    → all_readable access a.bookmark_files ≡ true
    → readable_if_set access a.tls_cert ≡ true
    → readable_if_set access a.tls_key ≡ true
    → IsAccepted access files a
accepted access files a k some_file login readable cert key = record {
  ranges = k.ranges;
  collected = k.collected;
  counted = (ground (arith, ap length k.collected), k.fit);
  readable =
      all_readable-All access files
        (subst (λ fs. all_readable access fs ≡ true) k.collected readable);
  login = elim (Bool-cases (is_set a.user)) [
    | inl named ↦ inr (ground arith)
    | inr nobody ↦ inl nobody
  ];
  tls_pair = elim k.pair [
    | inl idle ↦ absurd (ground (arith, ap length k.collected, ap length idle))
    | inr pair ↦ pair
  ];
  tls_readable = (cert, key);
}

parse_end-IsAccepted :
    (access : Bytes → Bool) (files : List Bytes) (a : Arguments)
    → Collected files a
    → OrElse (IsAccepted access files) (parse_end access a)
unfolding parse_end
parse_end-IsAccepted access files a k = elim (Bool-cases (length a.bookmark_files == 0)) [
  | inl idle ↦ rw idle tt
  | inr some_file ↦ elim (Bool-cases (is_set a.user && not (is_set a.pass))) [
    | inl open_door ↦ rw (some_file, open_door) tt
    | inr login ↦ elim (Bool-cases (all_readable access a.bookmark_files)) [
      | inr unreadable ↦ rw (some_file, login, unreadable) tt
      | inl readable ↦ elim (Bool-cases (readable_if_set access a.tls_cert)) [
        | inr no_cert ↦ rw (some_file, login, readable, no_cert) tt
        | inl cert ↦ elim (Bool-cases (readable_if_set access a.tls_key)) [
          | inr no_key ↦ rw (some_file, login, readable, cert, no_key) tt
          | inl key ↦
              rw (some_file, login, readable, cert, key)
                (accepted access files a k some_file login readable cert key)
        ]
      ]
    ]
  ]
]

-- When `argp_parse` returns, on options and then files, the numbers are in the ranges of their options,
-- the files are the 1 to 10 of the command line and all readable, a user has a password, and a TLS
-- certificate and key come together and are readable.
pub argp_parse-IsAccepted :
    (access : Bytes → Bool) (keys : List Key) (files : List Bytes) {a : Arguments}
    → argp_parse access keys files ≡ some a
    → IsAccepted access files a
unfolding argp_parse
argp_parse-IsAccepted access keys files {a} e = elim (Option-cases (parse_opts default_args keys)) [
  | inl stop ↦ absurd (ground arith)
  | inr (a1, ok1) ↦ elim (Option-cases (parse_files a1 files)) [
    | inl stop ↦ absurd (ground arith)
    | inr (a2, ok2) ↦
        let start : Optioned default_args = (
          record {
            port_in = omega arith;
            threads_in = omega arith;
            keep_alive_in = omega arith;
            max_conns_in = omega arith;
          },
          refl,
        ) in
        let optioned = subst (OrElse Optioned) ok1 (parse_opts-Optioned keys default_args start) in
        let collected = subst (OrElse (Collected files)) ok2 (
          parse_files-Collected [] files a1 (record {
            ranges = optioned.0;
            collected = optioned.1;
            fit = omega arith;
            pair = inl refl;
          })) in
        let ended : parse_end access a2 ≡ some a = ground arith in
        subst (OrElse (IsAccepted access files)) ended
          (parse_end-IsAccepted access files a2 collected)
  ]
]
