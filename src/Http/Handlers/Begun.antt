-- ===== src/Http/Handlers/Begun.antt =====
-- A response that the service writes: its status, its type and what the recorder holds
-- (internal/httpapi/server.go and metrics.go).
use modeld_go.Common.{
  ◌≡◌, ◌≢◌, is_empty, ◌∙◌, refl, sym, ap, Bool-cases, inl, inr, ◌⊎◌, Option, none, some, List, [],
  ◌∷◌, ◌++◌, Text, codes, ℤ, pos, ℕ, length, length-append, if◌then◌else◌, arith,
}
use modeld_go.Errors.{Error, ok}
use modeld_go.Infer.{InferEnv, FinalResult, Usage}
use modeld_go.Infer.Document.{document, concat, line_of, token_lines}
use modeld_go.Http.Logging.{LogLevel, level_debug, at_least}
use modeld_go.Http.Response.{Exchange, Connection, send_header, response_write, transmitted}
use modeld_go.Http.Handlers.{HttpEnv, both, multi_write}

abbrev pub ndjson : Text
ndjson = codes "application/x-ndjson"

-- Nothing has been sent of an exchange that began with a body, or 200 has been, with the type of the
-- handler; and the recorder has 200.
abbrev pub Streams : Text → Exchange → Type 0
Streams body y =
    (y.content_type ≡ ndjson)
    × (y.recorded ≡ pos 200)
    × (((y.sent ≡ none) × (y.body ≡ body)) ⊎ (y.sent ≡ some (pos 200, ndjson)))

-- What net/http does at a flush, at most.
abbrev pub FlushesOnly : Exchange → Exchange → Type 0
FlushesOnly y z = (z ≡ y) ⊎ (z ≡ send_header (pos 200) y)

sent_first :
    (body : Text) (y : Exchange)
    → Streams body y
    → (send_header (pos 200) y).sent ≡ some (pos 200, ndjson)
unfolding send_header
sent_first body y (type, recorded, inl (unsent, same)) = rw (unsent, type) refl
sent_first body y (type, recorded, inr good) = rw good refl

send-Streams :
    (body : Text) (y : Exchange) → Streams body y → Streams body (send_header (pos 200) y)
unfolding send_header
send-Streams body y (type, recorded, at) =
    (type, recorded, inr (sent_first body y (type, recorded, at)))

transmitted-Streams :
    (body p : Text) (y : Exchange) (r : Option (ℕ × Error))
    → Streams body y
    → Streams body (transmitted p (send_header (pos 200) y) r).0
unfolding transmitted send_header
transmitted-Streams body p y none (type, recorded, at) =
    (type, recorded, inr (sent_first body y (type, recorded, at)))
transmitted-Streams body p y (some (k, e)) (type, recorded, at) =
    (type, recorded, inr (sent_first body y (type, recorded, at)))

both-Streams :
    (body p : Text) (r : Exchange × ℤ × Option Error) → Streams body r.0 → Streams body (both p r).0
both-Streams body p (y, n, some e) streams = streams
both-Streams body p (y, n, none) streams = streams

response_write-Streams :
    (conn : Connection) (body p : Text) (y : Exchange)
    → Streams body y
    → Streams body (response_write conn p y).0
unfolding response_write
response_write-Streams conn body p y = transmitted-Streams body p y _

multi_write-Streams :
    (conn : Connection) (body p : Text) (y : Exchange)
    → Streams body y
    → Streams body (multi_write conn p y).0
unfolding multi_write
multi_write-Streams conn body p y streams =
    both-Streams body p (response_write conn p y) (response_write-Streams conn body p y streams)

-- The writer that the handler gives to the service keeps it.
pub writer-Streams :
    (env : HttpEnv) (lvl : LogLevel) (body p : Text) (y : Exchange)
    → Streams body y
    → Streams body
        ((if at_least level_debug lvl
            then multi_write env.connection
            else response_write env.connection)
          p y).0
writer-Streams env lvl body p y streams = elim (Bool-cases (at_least level_debug lvl)) [
  | inl debug ↦ rw debug (multi_write-Streams env.connection body p y streams)
  | inr quiet ↦ rw quiet (response_write-Streams env.connection body p y streams)
]

pub flushed-Streams :
    (body : Text) (y z : Exchange) → FlushesOnly y z → Streams body y → Streams body z
flushed-Streams body y z (inl same) streams = rw same streams
flushed-Streams body y z (inr header) streams = rw header (send-Streams body y streams)

grown : (b ts line : Text) → b ≢ b ++ (ts ++ (line ++ b'\n' ∷ []))
grown b ts line e = omega (
  arith,
  ap length e,
  length-append b (ts ++ (line ++ b'\n' ∷ [])),
  length-append ts (line ++ b'\n' ∷ []),
  length-append line (b'\n' ∷ []),
)

-- With the final line in the body, 200 has been sent.
pub sent_with_document :
    (ienv : InferEnv Exchange) (ts : List Text) (f : FinalResult) (body : Text) (y : Exchange)
    → ((content reason : Text) (usage : Usage)
        → (line : Text) × (ienv.final_line content reason usage ≡ ok line))
    → Streams body y
    → y.body ≡ body ++ document ienv (λ z. z.body) ts f
    → y.sent ≡ some (pos 200, ndjson)
sent_with_document ienv ts f body y encodes (type, recorded, inl (unsent, same)) whole =
    let (line, q) =
      encodes (if is_empty f.content then concat ts else f.content) f.finish_reason f.usage in
    absurd (
      grown body (token_lines ienv.token_line ts) line (
        sym same
        ∙ whole
        ∙ ap (λ o. body ++ (token_lines ienv.token_line ts ++ line_of ienv (λ z. z.body) o)) q))
sent_with_document ienv ts f body y encodes (type, recorded, inr good) whole = good

pub body-flushed : (y z : Exchange) → FlushesOnly y z → z.body ≡ y.body
unfolding send_header
body-flushed y z (inl same) = ap (λ v. v.body) same
body-flushed y z (inr header) = ap (λ v. v.body) header
