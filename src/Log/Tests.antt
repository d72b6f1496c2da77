-- ===== src/Log/Tests.antt =====
-- Runs of the logger, and its theorems at concrete inputs.
use local_marks.Prelude.{◌≡◌, refl, true, false, none, some, List, [], ◌∷◌, ◌++◌}
use local_marks.Prelude.Bytes.{codes}
use local_marks.Log.{
  info, warn, debug, file, fresh_logger, log_init, log_record, choose_stream, log_set_level, label,
  default_label, line_end, level_number,
}
use local_marks.Log.Plain.{has_escape, log_record-plain}
use local_marks.Log.Filter.{Call, init, set_level, opened, current, run_calls, run_calls-Balanced}

-- a terminal, then a file, then another file
abbrev calls : List Call
calls =
    init (λ path. none) true none info
    ∷ init (λ path. some 3) true (some (codes "a.log")) debug
    ∷ set_level warn
    ∷ init (λ path. some 4) true (some (codes "b.log")) info
    ∷ []

run_calls-Balanced_example :
    opened calls
    ≡ (run_calls calls fresh_logger []).1
      ++ current (run_calls calls fresh_logger []).0.g_log_stream
run_calls-Balanced_example = run_calls-Balanced calls

to_file :
    log_record warn true (some (codes "full")) (run_calls calls fresh_logger []).0
    ≡ some (file 4, codes "[WARN ] full" ++ 10 ∷ [])
unfolding log_record run_calls log_init choose_stream log_set_level label default_label line_end
    level_number
to_file = refl

log_record-plain_example : has_escape (codes "[WARN ] full" ++ 10 ∷ []) ≡ false
log_record-plain_example =
    log_record-plain calls warn true (codes "full") (unfold has_escape in refl) to_file
