-- ===== src/Http/Logging.antt =====
-- internal/httpapi/logging.go: the level of a request, and the writer that logs whole lines.
pub mod Lines
use modeld_go.Common.{
  ℕ, zero, suc, length, ◌≤◌, ◌<◌, ◌+◌, ◌≡◌, ◌∙◌, refl, sym, ap, Bool, true, false, Option, none,
  some, List, [], ◌∷◌, ◌++◌, append_assoc, append-nil, Text, codes, text_eq, is_empty,
  if◌then◌else◌, leb, ◌==◌, arith,
}

pub data LogLevel : Type 0 where
  level_off : LogLevel
  level_error : LogLevel
  level_info : LogLevel
  level_debug : LogLevel

abbrev rank : LogLevel → ℕ
rank level_off = 0
rank level_error = 1
rank level_info = 2
rank level_debug = 3

-- `lvl >= least`
abbrev pub at_least : LogLevel → LogLevel → Bool
at_least least lvl = leb (rank least) (rank lvl)

unfoldable pub parse_level : Text → LogLevel
parse_level s =
    if is_empty s
    then level_off
    else if text_eq s (codes "off")
    then level_off
    else if text_eq s (codes "error")
    then level_error
    else if text_eq s (codes "info")
    then level_info
    else if text_eq s (codes "debug")
    then level_debug
    else level_info

-- The default, from the two variables of the environment.
unfoldable pub default_log_level : Text → Text → LogLevel
unfolding parse_level
default_log_level log_infer log_level =
    if text_eq log_infer (codes "1") then level_debug else parse_level log_level

-- What a request says of its level: the query `log`, and the headers X-Log-Level and X-Log-Infer.
unfoldable pub request_log_level : LogLevel → Text → Text → Text → LogLevel
unfolding parse_level
request_log_level default query level infer =
    if is_empty query
    then if is_empty level
      then if text_eq infer (codes "1") then level_debug else default
      else parse_level level
    else if text_eq query (codes "1")
    then level_debug
    else parse_level query

-- loggingLineWriter, with the lines that it has logged.
pub record LineWriter : Type 0 where
  pub buf : Text
  pub logged : List Text

-- What precedes the first line feed of a text, and what follows it.
abbrev pub longer : ℕ → Option (Text × Text) → Option (Text × Text)
longer c none = none
longer c (some (line, rest)) = some (c ∷ line, rest)

unfoldable pub cut_line : Text → Option (Text × Text)
cut_line [] = none
cut_line (c ∷ s) = elim (c == b'\n') [ true ↦ some ([], s) | false ↦ longer c (cut_line s) ]

abbrev pub log_line : Text → List Text → List Text
log_line line logged = if is_empty line then logged else logged ++ line ∷ []

-- The loop of Write: each round takes a line off the buffer, so that the buffer's length is enough
-- fuel.
unfoldable pub after_cut :
    (LineWriter → LineWriter) → LineWriter → Option (Text × Text) → LineWriter
after_cut next lw none = lw
after_cut next lw (some (line, rest)) =
    next (record { buf = rest; logged = log_line line lw.logged })

unfoldable pub write_loop : ℕ → LineWriter → LineWriter
unfolding after_cut
write_loop zero lw = lw
write_loop (suc fuel) lw = after_cut (write_loop fuel) lw (cut_line lw.buf)

-- Write; it answers that all of `p` was written.
unfoldable pub line_write : Text → LineWriter → LineWriter
unfolding write_loop
line_write p lw = write_loop (length (lw.buf ++ p)) (record lw { buf = lw.buf ++ p })
