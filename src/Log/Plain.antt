-- ===== src/Log/Plain.antt =====
-- Log files and escape sequences (src/log.c).
use local_marks.Prelude.{
  ℕ, ◌≡◌, inl, inr, refl, sym, Bool, true, false, ◌||◌, Option, none, some, List, [], ◌∷◌, ◌++◌,
  ltb, ◌==◌, arith, Option-cases, Bool-cases,
}
use local_marks.Prelude.Bytes.{Bytes}
use local_marks.Log.{
  LogLevel, off, fatal, error, warn, info, debug, trace, level_number, Stream, stderr, file, Logger,
  fresh_logger, default_label, choose_stream, closed_by_init, log_init, log_record, log_set_level,
  label, line_end,
}
use local_marks.Log.Filter.{Call, init, set_level, and_closed, run_calls}

-- whether a text has an escape byte
unfoldable pub has_escape : Bytes → Bool
has_escape [] = false
has_escape (c ∷ s) = c == 27 || has_escape s

-- a logger that writes to a file does not colour
abbrev pub IsPlain : Option Stream → Bool → Type 0
IsPlain none use_color = Unit {0}
IsPlain (some stderr) use_color = Unit {0}
IsPlain (some (file f)) use_color = use_color ≡ false

has_escape-append : (a b : Bytes) → has_escape (a ++ b) ≡ (has_escape a || has_escape b)
unfolding has_escape
has_escape-append [] b = refl
has_escape-append (c ∷ s) b = ground (arith, has_escape-append s b)

choose_stream-IsPlain :
    (fopen : Bytes → Option ℕ) (isatty : Bool) (path : Option Bytes)
    → IsPlain (some (choose_stream fopen isatty path).0) (choose_stream fopen isatty path).1
unfolding choose_stream
choose_stream-IsPlain fopen isatty none = tt
choose_stream-IsPlain fopen isatty (some path) = elim (Option-cases (fopen path)) [
  | inl unopened ↦ rw (choose_stream, IsPlain, unopened) tt
  | inr (f, ok) ↦ rw (choose_stream, IsPlain, ok) refl
]

run_calls-IsPlain :
    (calls : List Call) (l : Logger) (closed : List ℕ)
    → IsPlain l.g_log_stream l.g_use_color
    → let l' = (run_calls calls l closed).0 in IsPlain l'.g_log_stream l'.g_use_color
unfolding run_calls log_init log_set_level
run_calls-IsPlain [] l closed k = k
run_calls-IsPlain (init fopen isatty path level ∷ calls) l closed k =
    run_calls-IsPlain calls (log_init fopen isatty path level l).0
      (and_closed closed (closed_by_init l.g_log_stream)) (choose_stream-IsPlain fopen isatty path)
run_calls-IsPlain (set_level level ∷ calls) l closed k =
    run_calls-IsPlain calls (log_set_level level l) closed k

default_label-plain : (level : LogLevel) → has_escape (default_label level) ≡ false
unfolding has_escape default_label
default_label-plain off = refl
default_label-plain fatal = refl
default_label-plain error = refl
default_label-plain warn = refl
default_label-plain info = refl
default_label-plain debug = refl
default_label-plain trace = refl

line_end-plain : (new_line : Bool) → has_escape (line_end new_line) ≡ false
unfolding has_escape line_end
line_end-plain true = refl
line_end-plain false = refl

-- a line of the plain kind has no escape byte
plain_line :
    (level : LogLevel) (new_line : Bool) (message : Bytes)
    → has_escape message ≡ false
    → has_escape (default_label level ++ message ++ line_end new_line) ≡ false
plain_line level new_line message clean =
    rw
      (
        has_escape-append (default_label level ++ message) (line_end new_line),
        has_escape-append (default_label level) message,
        default_label-plain level,
        clean,
        line_end-plain new_line,
      )
      refl

log_record_in :
    (g_log_level : LogLevel) (stream : Option Stream) (use_color : Bool) (level : LogLevel)
    (new_line : Bool) (message : Bytes) {f : ℕ} {text : Bytes}
    → IsPlain stream use_color
    → has_escape message ≡ false
    → log_record level new_line
        (some message)
        (record { g_log_level = g_log_level; g_log_stream = stream; g_use_color = use_color })
      ≡ some (file f, text)
    → has_escape text ≡ false
unfolding log_record label
log_record_in g_log_level none use_color level new_line message plain clean e = absurd (cc)
log_record_in g_log_level (some stderr) use_color level new_line message plain clean e =
    elim (Bool-cases (ltb (level_number g_log_level) (level_number level))) [
      | inl quiet ↦ absurd (ground arith)
      | inr loud ↦ absurd (ground arith)
    ]
log_record_in g_log_level (some (file g)) use_color level new_line message {f} {text} plain clean
      e =
    elim (Bool-cases (ltb (level_number g_log_level) (level_number level))) [
      | inl quiet ↦ absurd (ground arith)
      | inr loud ↦
          let is : default_label level ++ message ++ line_end new_line ≡ text = ground arith in
          rw (sym is) (plain_line level new_line message clean)
    ]

-- After any such sequence of calls, a message without an escape byte that goes to a file makes a line
-- without one.
pub log_record-plain :
    (calls : List Call) (level : LogLevel) (new_line : Bool) (message : Bytes) {f : ℕ}
    {text : Bytes}
    → has_escape message ≡ false
    → log_record level new_line (some message) (run_calls calls fresh_logger []).0
      ≡ some (file f, text)
    → has_escape text ≡ false
log_record-plain calls level new_line message clean e =
    let l = (run_calls calls fresh_logger []).0 in
    log_record_in l.g_log_level l.g_log_stream l.g_use_color level new_line message
      (run_calls-IsPlain calls fresh_logger [] tt) clean e
