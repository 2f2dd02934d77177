-- ===== src/Http/Handlers.antt =====
-- internal/httpapi/server.go: the handlers, for any service.
pub mod Outcomes
pub mod Unknown
pub mod Begun
pub mod Writers
pub mod Streamed
use modeld_go.Common.{
  ℕ, Bool, true, false, ◌||◌, ◌&&◌, not, Option, none, some, List, [], ◌∷◌, ◌++◌, Text, codes,
  is_empty, trim_space, to_lower, has_prefix, ℤ, pos, pos_part, ltb_ℤ, take, length, if◌then◌else◌,
  decimal, ltb,
}
use modeld_go.Types.{Model, InferRequest, StatusResponse}
use modeld_go.Errors.{
  Error, message, is_too_busy, is_model_not_found, is_dependency_unavailable, is_budget_exceeded,
  with_status, Result, ok, err,
}
use modeld_go.Output.{Writer}
use modeld_go.Http.Settings.{Settings, join_contexts}
use modeld_go.Http.Logging.{
  LogLevel, level_info, level_debug, at_least, request_log_level, line_write,
}
use modeld_go.Http.Response.{
  Exchange, LogEntry, infer_start, infer_end, Connection, Encoder, set_content_type, write_header,
  response_write, write_json_error,
}

-- The context that a handler passes on: ctx.Err() when the call starts, and the time limit in seconds,
-- if there is one.
pub record CallContext : Type 0 where
  pub over : Option Error
  pub limit : Option ℤ

-- The interface Service.
pub record Service : Type 0 where
  pub list_models : List Model
  pub status : StatusResponse
  pub infer :
      CallContext
      → InferRequest
      → Writer Exchange
      → Option (Exchange → Exchange)
      → Exchange
      → Exchange × Option Error
  pub ready : Bool

-- A request to POST /infer, with its raw body.
pub record Request : Type 0 where
  pub content_type : Text
  pub path : Text
  pub log_query : Text
  pub log_level_header : Text
  pub log_infer_header : Text
  pub body : Text

-- What meets one exchange: encoding/json's decoding of the first value of a text and its encodings, the
-- connection, the Flush of the response if it has one, the default log level, and the errors of the
-- server's and the request's context, before and after the call of the service.
pub record HttpEnv : Type 0 where
  pub decode : Text → Option InferRequest
  pub encoder : Encoder
  pub encode_models : List Model → Result Text
  pub encode_status : StatusResponse → Result Text
  pub connection : Connection
  pub flush : Option (Exchange → Exchange)
  pub default_level : LogLevel
  pub base_before : Option Error
  pub request_before : Option Error
  pub base_after : Option Error
  pub request_after : Option Error

abbrev is_some {ℓ} : {A : Type ℓ} → Option A → Bool
is_some none = false
is_some (some _) = true

-- HTTPError is asked of the error itself, not of what it wraps.
abbrev own_status : Error → ℤ
own_status (with_status code msg) = code
own_status e = pos 500

-- The statuses of the chain of tests.
unfoldable pub status_of : Error → ℤ
status_of e =
    if is_model_not_found e
    then pos 404
    else if is_dependency_unavailable e
    then pos 503
    else if is_budget_exceeded e
    then pos 507
    else if is_too_busy e
    then pos 429
    else own_status e

-- Which of the tests is the one for backpressure.
abbrev is_backpressure : Error → Bool
is_backpressure e =
    not (is_model_not_found e)
    && not (is_dependency_unavailable e)
    && not (is_budget_exceeded e)
    && is_too_busy e

-- IncrementBackpressure
unfoldable pub increment_backpressure : Text → Exchange → Exchange
increment_backpressure reason x = record x {
  backpressure = (if is_empty reason then codes "unspecified" else reason) ∷ x.backpressure;
}

-- logInferStart and logInferEnd
unfoldable pub log_infer_start : LogLevel → Text → Text → Exchange → Exchange
log_infer_start lvl path model x =
    if at_least level_info lvl then record x { log = infer_start path model ∷ x.log } else x

unfoldable pub log_infer_end : LogLevel → Text → Option Error → Exchange → Exchange
log_infer_end lvl status e x =
    if at_least level_info lvl then record x { log = infer_end status e ∷ x.log } else x

-- The body that http.MaxBytesReader lets through.
abbrev pub limited : ℤ → Text → Text
limited n body = take (pos_part n) body

-- io.MultiWriter of the response and a line writer: the second gets the text once the first has taken
-- all of it.
abbrev pub both : Text → Exchange × ℤ × Option Error → Exchange × ℤ × Option Error
both p (x, n, some e) = (x, n, some e)
both p (x, n, none) = (record x { lines = line_write p x.lines }, n, none)

unfoldable pub multi_write : Connection → Writer Exchange
unfolding response_write
multi_write conn p x = both p (response_write conn p x)

module _ (env : HttpEnv) (g : Settings) where
  -- The service has answered.
  unfoldable pub answered : LogLevel → Exchange × Option Error → Exchange
  unfolding write_json_error log_infer_end increment_backpressure status_of
  answered lvl (x, none) = log_infer_end lvl (codes "200") none x
  answered lvl (x, some e) =
      if is_some env.request_after || is_some env.base_after
      then x
      else let y = write_json_error env.connection env.encoder (status_of e) (message e) x in
        let z = if is_backpressure e then increment_backpressure (codes "queue") y else y in
        log_infer_end lvl (decimal (status_of e)) (some e) z

  -- The context and its time limit.
  abbrev pub call_context : CallContext
  call_context = record {
    over = join_contexts env.base_before env.request_before;
    limit = if ltb_ℤ (pos 0) g.infer_timeout then some g.infer_timeout else none;
  }

  -- A request that was decoded.
  unfoldable pub run_infer : Service → Request → InferRequest → Exchange → Exchange
  unfolding answered set_content_type request_log_level log_infer_start multi_write response_write
  run_infer svc r req x =
      let lvl =
        request_log_level env.default_level r.log_query r.log_level_header r.log_infer_header in
      let write : Writer Exchange =
        if at_least level_debug lvl
        then multi_write env.connection
        else response_write env.connection in
      answered lvl (
        svc.infer call_context req write env.flush (
          log_infer_start lvl r.path req.model (set_content_type (codes "application/x-ndjson") x)))

  abbrev is_json : Text → Bool
  is_json ct = not (is_empty ct) && has_prefix (to_lower ct) (codes "application/json")

  unfoldable pub decoded : Service → Request → Option InferRequest → Exchange → Exchange
  unfolding run_infer write_json_error
  decoded svc r none x =
      write_json_error env.connection env.encoder (pos 400) (codes "invalid JSON body") x
  decoded svc r (some req) x =
      if is_empty (trim_space req.prompt)
      then write_json_error env.connection env.encoder (pos 400) (codes "prompt is required") x
      else run_infer svc r req x

  -- postInfer
  unfoldable pub post_infer : Service → Request → Exchange → Exchange
  unfolding decoded write_json_error
  post_infer svc r x =
      if is_json r.content_type
      then decoded svc r (env.decode (limited g.max_body_bytes r.body)) x
      else write_json_error env.connection env.encoder (pos 415)
          (codes "Content-Type must be application/json") x

  -- A JSON encoder that writes to the response.
  abbrev written : Exchange × ℤ × Option Error → Exchange
  written (x, n, none) = x
  written (x, n, some e) =
      write_json_error env.connection env.encoder (pos 500) (codes "failed to encode response") x

  abbrev send_json : Result Text → Exchange → Exchange
  send_json (ok text) x = written (response_write env.connection text x)
  send_json (err e) x =
      write_json_error env.connection env.encoder (pos 500) (codes "failed to encode response") x

  -- getModels and getStatus
  unfoldable pub get_models : Service → Exchange → Exchange
  unfolding set_content_type
  get_models svc x =
      send_json (env.encode_models svc.list_models) (set_content_type (codes "application/json") x)

  unfoldable pub get_status : Service → Exchange → Exchange
  unfolding set_content_type
  get_status svc x =
      send_json (env.encode_status svc.status) (set_content_type (codes "application/json") x)

  -- getHealthz and getReadyz
  unfoldable pub get_healthz : Exchange → Exchange
  unfolding write_header response_write
  get_healthz x = (response_write env.connection (codes "ok") (write_header (pos 200) x)).0

  unfoldable pub get_readyz : Service → Exchange → Exchange
  unfolding write_header response_write
  get_readyz svc x =
      if svc.ready
      then (response_write env.connection (codes "ready") (write_header (pos 200) x)).0
      else (response_write env.connection (codes "loading") (write_header (pos 503) x)).0
