-- ===== src/Tests/Requests.antt =====
-- Infer and the HTTP handlers, at concrete inputs.
use modeld_go.Common.{false, ◌≡◌, refl, none, some, [], ◌∷◌, codes, text_dec, pos}
use modeld_go.Types.{InferRequest}
use modeld_go.Errors.{Error, wrapped, too_busy, ok}
use modeld_go.Events.{publish}
use modeld_go.Infer.{infer}
use modeld_go.Infer.Slots.{Settled, infer-Settled}
use modeld_go.Manager.{announce, Manager, ready, custom}
use modeld_go.Manager.Ensure.{ensure_instance, ensure_named, has_ready, touch}
use modeld_go.Manager.Instances.{get_model_by_id, find, update_at}
use modeld_go.Http.Settings.{initial}
use modeld_go.Http.Logging.{level_info}
use modeld_go.Http.Response.{Exchange, fresh}
use modeld_go.Http.Handlers.{Request, HttpEnv, status_of, answered}
use modeld_go.Http.Handlers.Outcomes.{verdict, Answered, answered-Answered}
use modeld_go.Http.Handlers.Unknown.{infer_unknown}
use modeld_go.Http.Metrics.{Collectors}
use modeld_go.Tests.Fixtures.{instance_of, llama, other, two, manager_with, infer_request}
use modeld_go.Tests.Calls.{infer_env}

abbrev serving : Manager
serving = manager_with ready two custom

abbrev touched : Manager
touched = record serving {
  instances = record (instance_of llama 0 5) { last_used = 9 } ∷ instance_of other 1 3 ∷ [];
}

ready_at_once : ensure_instance infer_env.ensure llama serving ≡ some (touched, none)
unfolding ensure_instance has_ready touch find text_dec ensure_named announce update_at publish
ready_at_once = refl

infer-Settled_example :
    Settled infer_env llama serving touched (infer infer_env infer_request [] serving)
infer-Settled_example = infer-Settled infer_env infer_request [] serving touched ready_at_once

abbrev unknown : InferRequest
unknown = record infer_request { model = codes "c.gguf" }

not_loaded : has_ready (codes "c.gguf") serving ≡ false
unfolding has_ready find text_dec
not_loaded = refl

not_registered : get_model_by_id (codes "c.gguf") serving.registry ≡ none
unfolding get_model_by_id text_dec
not_registered = refl

infer_unknown_example :
    (n : Manager) × (e : Error) × (infer infer_env unknown [] serving ≡ some ([], n, some e))
    × (n.instances ≡ serving.instances)
    × (status_of e ≡ pos 404)
infer_unknown_example =
    infer_unknown infer_env unknown [] serving refl refl refl refl not_loaded not_registered

abbrev pub http_env : HttpEnv
http_env = record {
  decode = λ t. some infer_request;
  encoder = record { error_line = λ r. r.error };
  encode_models = λ ms. ok [];
  encode_status = λ s. ok [];
  connection = λ p. λ x. none;
  flush = none;
  default_level = level_info;
  base_before = none;
  request_before = none;
  base_after = none;
  request_after = none;
}

-- The queue is full after a token has been sent.
abbrev begun : Exchange
begun = record fresh { sent = some (pos 200, codes "application/x-ndjson"); body = codes "{}" }

abbrev queue_full : Error
queue_full = wrapped (codes "begin generation") (too_busy llama)

answered-Answered_example :
    Answered begun
      (verdict queue_full)
      (answered http_env initial level_info (begun, some queue_full))
answered-Answered_example = answered-Answered http_env initial level_info begun queue_full refl refl

abbrev pub post : Request
post = record {
  content_type = codes "application/json; charset=utf-8";
  path = codes "/infer";
  log_query = [];
  log_level_header = [];
  log_infer_header = [];
  body = codes "{}";
}

abbrev pub no_requests : Collectors
no_requests = record { inflight_up = []; inflight_down = []; requests = []; durations = [] }
