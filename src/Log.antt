-- ===== src/Log.antt =====
-- src/log.c and src/log.h: the logger. Its state is what the mutex guards; an operation takes the mutex
-- for all of its work. The time stamp and the source location of a build that has them are not modelled.
pub mod Filter
pub mod Plain
mod Tests
use local_marks.Prelude.{
  ℕ, zero, suc, ◌+◌, ◌-◌, ◌*◌, ◌/◌, ◌%◌, ◌^◌, ◌≤◌, ◌<◌, ◌≡◌, ◌≢◌, ◌↔◌, ◌⊎◌, inl, inr, refl, sym, ap,
  ◌∙◌, Bool, true, false, not, ◌&&◌, ◌||◌, Option, none, some, List, [], ◌∷◌, ◌++◌, map, append-nil,
  append_assoc, min, ltb, leb, ◌==◌, if◌then◌else◌, length, get_or, get_elem?, set, replicate, take,
  drop, arith, tests, All, All-get, All-set, All-append, All-replicate, length-set, length-map,
  length-append, length-replicate, length-take, length-take-le, length-drop, take_of_le,
  get_or-set_self, get_or-set_ne, get_or-replicate, Option-cases, Bool-cases, ==_iff, ltb→lt,
  lt→ltb, leb→le,
}
use local_marks.Prelude.Bytes.{Bytes, codes}

pub data LogLevel : Type 0 where
  off : LogLevel
  fatal : LogLevel
  error : LogLevel
  warn : LogLevel
  info : LogLevel
  debug : LogLevel
  trace : LogLevel

-- the numbers of `Log_level_t`
unfoldable pub level_number : LogLevel → ℕ
level_number off = 0
level_number fatal = 1
level_number error = 2
level_number warn = 3
level_number info = 4
level_number debug = 5
level_number trace = 6

-- `stderr`, or a stream that `fopen` gave
pub data Stream : Type 0 where
  stderr : Stream
  file : ℕ → Stream

pub record Logger : Type 0 where
  pub g_log_level : LogLevel
  pub g_log_stream : Option Stream
  pub g_use_color : Bool

abbrev pub fresh_logger : Logger
fresh_logger = record { g_log_level = info; g_log_stream = none; g_use_color = false }

-- `default_log_handler`
unfoldable pub default_label : LogLevel → Bytes
default_label fatal = codes "[FATAL] "
default_label error = codes "[ERROR] "
default_label warn = codes "[WARN ] "
default_label info = codes "[INFO ] "
default_label debug = codes "[DEBUG] "
default_label trace = codes "[TRACE] "
default_label off = codes "[UNKWN] "

-- an escape sequence, by its number
unfoldable pub color : Bytes → Bytes
color n = 27 ∷ b'[' ∷ n ++ b'm' ∷ []

unfoldable pub colored : Bytes → Bytes → Bytes → Bytes
unfolding color
colored lead code word = lead ++ b'[' ∷ color code ++ word ++ color (codes "0") ++ codes "] "

-- `color_log_handler`; the symbols are the bytes of their UTF-8 form
unfoldable pub color_label : LogLevel → Bytes
unfolding colored
color_label fatal = colored (240 ∷ 159 ∷ 146 ∷ 128 ∷ 32 ∷ []) (codes "1;34") (codes "FATAL")
color_label error = colored (240 ∷ 159 ∷ 154 ∷ 168 ∷ 32 ∷ []) (codes "1;31") (codes "ERROR")
color_label warn =
    colored (226 ∷ 154 ∷ 160 ∷ 239 ∷ 184 ∷ 143 ∷ 32 ∷ 32 ∷ []) (codes "1;33") (codes "WARN ")
color_label info =
    colored (226 ∷ 132 ∷ 185 ∷ 239 ∷ 184 ∷ 143 ∷ 32 ∷ 32 ∷ []) (codes "1;32") (codes "INFO ")
color_label debug =
    colored (240 ∷ 159 ∷ 155 ∷ 160 ∷ 239 ∷ 184 ∷ 143 ∷ 32 ∷ 32 ∷ []) (codes "1;36") (codes "DEBUG")
color_label trace = colored (240 ∷ 159 ∷ 148 ∷ 172 ∷ 32 ∷ []) (codes "1;35") (codes "TRACE")
color_label off = colored [] (codes "1;34") (codes "UNKWN")

-- The stream and the colour flag that `log_init` chooses, and whether it warns: `fopen` is what the
-- call gives for a path, `isatty` what it says of stderr.
unfoldable pub choose_stream : (Bytes → Option ℕ) → Bool → Option Bytes → Stream × Bool × Bool
choose_stream fopen isatty none = (stderr, isatty, false)
choose_stream fopen isatty (some file_path) = elim (fopen file_path) [
  | none ↦ (stderr, isatty, true)
  | some f ↦ (file f, false, false)
]

-- the stream that `log_init` closes
unfoldable pub closed_by_init : Option Stream → Option ℕ
closed_by_init none = none
closed_by_init (some stderr) = none
closed_by_init (some (file f)) = some f

unfoldable pub log_init :
    (Bytes → Option ℕ) → Bool → Option Bytes → LogLevel → Logger → Logger × Option ℕ
unfolding choose_stream closed_by_init
log_init fopen isatty file_path level l =
    let (new_stream, new_color, warned) = choose_stream fopen isatty file_path in
    (
      record { g_log_level = level; g_log_stream = some new_stream; g_use_color = new_color },
      closed_by_init l.g_log_stream,
    )

unfoldable pub log_set_level : LogLevel → Logger → Logger
log_set_level level l = record l { g_log_level = level }

unfoldable pub log_get_level : Logger → LogLevel
log_get_level l = l.g_log_level

unfoldable pub log_use_color : Logger → Bool
log_use_color l = l.g_use_color

unfoldable pub log_get_file : Logger → Stream
log_get_file l = elim l.g_log_stream [ none ↦ stderr | some f ↦ f ]

-- the macro LOG_LEVEL_IS_ENABLED
unfoldable pub log_level_is_enabled : LogLevel → Logger → Bool
unfolding log_get_level level_number
log_level_is_enabled level l = leb (level_number level) (level_number (log_get_level l))

unfoldable pub label : Bool → LogLevel → Bytes
unfolding default_label color_label
label use_color level = if use_color then color_label level else default_label level

unfoldable pub line_end : Bool → Bytes
line_end new_line = if new_line then 10 ∷ [] else []

-- the complaint about a missing `log_init`
unfoldable pub not_initialised : Bytes
unfolding color
not_initialised =
    color (codes "1;31")
    ++ codes "[LOG] error: log_init() not called "
    ++ 226 ∷ 128 ∷ 148 ∷ codes " dropping message"
    ++ color (codes "0")

-- What `log_record` writes, and where; `message` is what the format and its arguments make, none for a
-- NULL format.
unfoldable pub log_record : LogLevel → Bool → Option Bytes → Logger → Option (Stream × Bytes)
unfolding label line_end not_initialised level_number
log_record level new_line none l = none
log_record level new_line (some message) l = elim l.g_log_stream [
  | none ↦ some (stderr, not_initialised ++ line_end new_line)
  | some stream ↦
      if ltb (level_number l.g_log_level) (level_number level)
      then none
      else some (stream, label l.g_use_color level ++ message ++ line_end new_line)
]
