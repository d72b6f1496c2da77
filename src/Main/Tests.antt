-- ===== src/Main/Tests.antt =====
-- Runs of the command line, and its theorem at a concrete input.
use local_marks.Prelude.{◌≡◌, refl, true, none, some, List, [], ◌∷◌}
use local_marks.Prelude.Bytes.{Bytes, codes, str_eq, is_space}
use local_marks.Http.Header.{strtoll}
use local_marks.Main.{
  Arguments, default_args, port_opt, user_opt, parse_opts, parse_files, parse_file, parse_end,
  argp_parse, number_in, parse_opt, is_set, all_readable, readable_if_set,
}
use local_marks.Main.Accepted.{IsAccepted, argp_parse-IsAccepted}

abbrev parsed : Arguments
parsed = record default_args { port = 443; bookmark_files = codes "a.json" ∷ codes "b.json" ∷ [] }

abbrev files : List Bytes
files = codes "a.json" ∷ codes "b.json" ∷ []

accepts : argp_parse (λ path. true) (port_opt (codes " 443") ∷ []) files ≡ some parsed
unfolding argp_parse parse_opts parse_opt parse_files parse_file parse_end number_in is_set
    all_readable readable_if_set strtoll str_eq is_space
accepts = refl

-- a port that is out of range, and a user without a password
refuses :
    (argp_parse (λ path. true) (port_opt (codes "65536") ∷ []) files ≡ none)
    × (argp_parse (λ path. true) (user_opt (codes "u") ∷ []) files ≡ none)
unfolding argp_parse parse_opts parse_opt parse_files parse_file parse_end number_in is_set
    all_readable readable_if_set strtoll str_eq is_space
refuses = (refl, refl)

argp_parse-IsAccepted_example : IsAccepted (λ path. true) files parsed
argp_parse-IsAccepted_example =
    argp_parse-IsAccepted (λ path. true) (port_opt (codes " 443") ∷ []) files accepts
