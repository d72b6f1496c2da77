-- ===== src/Log/Filter.antt =====
-- What the logger does with its streams.
use local_marks.Prelude.{
  ℕ, ◌≡◌, inl, inr, refl, sym, ◌∙◌, Bool, Option, none, some, List, [], ◌∷◌, ◌++◌, append-nil,
  append_assoc, Option-cases,
}
use local_marks.Prelude.Bytes.{Bytes}
use local_marks.Log.{
  LogLevel, Stream, stderr, file, Logger, fresh_logger, choose_stream, closed_by_init, log_init,
  log_set_level,
}

-- a call that changes the logger; the functions are what `fopen` gives
pub data Call : Type 0 where
  init : (Bytes → Option ℕ) → Bool → Option Bytes → LogLevel → Call
  set_level : LogLevel → Call

-- the file that a call opens, as a list
unfoldable pub opened_by : (Bytes → Option ℕ) → Option Bytes → List ℕ
opened_by fopen none = []
opened_by fopen (some path) = elim (fopen path) [ none ↦ [] | some f ↦ f ∷ [] ]

unfoldable pub opened : List Call → List ℕ
unfolding opened_by
opened [] = []
opened (init fopen isatty path level ∷ calls) = opened_by fopen path ++ opened calls
opened (set_level level ∷ calls) = opened calls

-- the file that the logger has open, as a list
unfoldable pub current : Option Stream → List ℕ
current none = []
current (some stderr) = []
current (some (file f)) = f ∷ []

unfoldable pub and_closed : List ℕ → Option ℕ → List ℕ
and_closed closed none = closed
and_closed closed (some f) = closed ++ f ∷ []

-- the logger behind the calls, and the files that they closed
unfoldable pub run_calls : List Call → Logger → List ℕ → Logger × List ℕ
unfolding and_closed
run_calls [] l closed = (l, closed)
run_calls (init fopen isatty path level ∷ calls) l closed =
    let (l', gone) = log_init fopen isatty path level l in
    run_calls calls l' (and_closed closed gone)
run_calls (set_level level ∷ calls) l closed = run_calls calls (log_set_level level l) closed

and_closed-current :
    (closed : List ℕ) (stream : Option Stream)
    → and_closed closed (closed_by_init stream) ≡ closed ++ current stream
unfolding and_closed closed_by_init current
and_closed-current closed none = sym (append-nil closed)
and_closed-current closed (some stderr) = sym (append-nil closed)
and_closed-current closed (some (file f)) = refl

choose_stream-current :
    (fopen : Bytes → Option ℕ) (isatty : Bool) (path : Option Bytes)
    → current (some (choose_stream fopen isatty path).0) ≡ opened_by fopen path
unfolding choose_stream current opened_by
choose_stream-current fopen isatty none = refl
choose_stream-current fopen isatty (some path) = elim (Option-cases (fopen path)) [
  | inl unopened ↦ rw (choose_stream, current, opened_by, unopened) refl
  | inr (f, ok) ↦ rw (choose_stream, current, opened_by, ok) refl
]

run_calls-opened :
    (calls : List Call) (l : Logger) (closed : List ℕ)
    → let (l', closed') = run_calls calls l closed in
      closed' ++ current l'.g_log_stream ≡ closed ++ current l.g_log_stream ++ opened calls
unfolding run_calls opened log_init log_set_level
run_calls-opened [] l closed = sym (append-nil (closed ++ current l.g_log_stream))
run_calls-opened (init fopen isatty path level ∷ calls) l closed =
    run_calls-opened calls (log_init fopen isatty path level l).0
      (and_closed closed (closed_by_init l.g_log_stream))
    ∙ rw (and_closed-current closed l.g_log_stream, choose_stream-current fopen isatty path)
        (append_assoc (closed ++ current l.g_log_stream) (opened_by fopen path) (opened calls))
run_calls-opened (set_level level ∷ calls) l closed =
    run_calls-opened calls (log_set_level level l) closed

-- Over any sequence of calls of `log_init` and `log_set_level` on a fresh logger, the files that were
-- opened are those that were closed, in order, followed by the one that the logger writes to, if any.
pub run_calls-Balanced :
    (calls : List Call)
    → let (l, closed) = run_calls calls fresh_logger [] in
      opened calls ≡ closed ++ current l.g_log_stream
unfolding current
run_calls-Balanced calls = sym (run_calls-opened calls fresh_logger [])
