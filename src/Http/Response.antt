-- ===== src/Http/Response.antt =====
-- What a handler does to its response: http.ResponseWriter behind the statusRecorder of
-- internal/httpapi/metrics.go, and writeJSONError of errors.go.
use modeld_go.Common.{ℕ, Option, none, some, List, [], ◌++◌, Text, codes, ℤ, pos, take, length}
use modeld_go.Types.{ErrorResponse}
use modeld_go.Errors.{Error}
use modeld_go.Http.Logging.{LineWriter}

-- A line of the log: "infer start" and "infer end".
pub data LogEntry : Type 0 where
  infer_start : Text → Text → LogEntry
  infer_end : Text → Option Error → LogEntry

-- One exchange: the Content-Type header, and the other headers that middlewares set; the status and the type that have been sent, once they have;
-- the body so far; the status that the recorder holds; the writer of debug lines; the log; and the
-- reasons for which the counter of backpressure was incremented.
pub record Exchange : Type 0 where
  pub content_type : Text
  pub headers : List (Text × Text)
  pub sent : Option (ℤ × Text)
  pub body : Text
  pub recorded : ℤ
  pub lines : LineWriter
  pub log : List LogEntry
  pub backpressure : List Text

-- A new exchange.
abbrev pub fresh : Exchange
fresh = record {
  content_type = [];
  headers = [];
  sent = none;
  body = [];
  recorded = pos 200;
  lines = record { buf = []; logged = [] };
  log = [];
  backpressure = [];
}

unfoldable pub set_content_type : Text → Exchange → Exchange
set_content_type t x = record x { content_type = t }

-- What net/http sends: the first status counts, with the headers of that moment.
unfoldable pub send_header : ℤ → Exchange → Exchange
send_header code x = record x {
  sent = elim x.sent [ none ↦ some (code, x.content_type) | some s ↦ some s ];
}

-- statusRecorder.WriteHeader
unfoldable pub write_header : ℤ → Exchange → Exchange
unfolding send_header
write_header code x = send_header code (record x { recorded = code })

-- How the connection fails at a write, if it does: the bytes that still went out, and the error.
abbrev pub Connection : Type 0
Connection = Text → Exchange → Option (ℕ × Error)

-- Write of the response: a status that was not sent becomes 200.
unfoldable pub transmitted : Text → Exchange → Option (ℕ × Error) → Exchange × ℤ × Option Error
transmitted p x none = (record x { body = x.body ++ p }, pos (length p), none)
transmitted p x (some (k, e)) =
    (record x { body = x.body ++ take k p }, pos (length (take k p)), some e)

unfoldable pub response_write : Connection → Text → Exchange → Exchange × ℤ × Option Error
unfolding send_header transmitted
response_write conn p x = transmitted p (send_header (pos 200) x) (conn p x)

-- The encoders of encoding/json for the values that the handlers send.
pub record Encoder : Type 0 where
  pub error_line : ErrorResponse → Text

-- writeJSONError; the error of the encoding is ignored.
unfoldable pub write_json_error : Connection → Encoder → ℤ → Text → Exchange → Exchange
unfolding write_header set_content_type response_write
write_json_error conn enc status msg x =
    (response_write conn (enc.error_line (record { error = msg; code = status }))
      (write_header status (set_content_type (codes "application/json") x))).0
