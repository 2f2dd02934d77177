-- ===== src/Http/Mux/Ready.antt =====
-- GET /readyz and GET /status over the manager: internal/httpapi/server.go on Ready, ListModels and
-- Status of internal/manager.
use modeld_go.Common.{
  ℕ, ◌≡◌, ◌∙◌, refl, ap, Bool, true, false, not, Bool-cases, inl, inr, Option, none, some, Text,
  codes, ℤ, pos, if◌then◌else◌,
}
use modeld_go.Types.{InferRequest}
use modeld_go.Errors.{Error}
use modeld_go.Output.{Writer}
use modeld_go.Manager.{Manager}
use modeld_go.Manager.Instances.{is_errored}
use modeld_go.Manager.Ensure.{has_ready}
use modeld_go.Manager.Setup.{list_models}
use modeld_go.Manager.Status.{is_up, status, is_up-has_ready}
use modeld_go.Http.Settings.{Settings}
use modeld_go.Http.Response.{
  Exchange, Connection, write_header, send_header, response_write, transmitted,
}
use modeld_go.Http.Handlers.{CallContext, Service, HttpEnv, get_readyz}
use modeld_go.Http.Metrics.{Collectors}
use modeld_go.Http.Mux.{Incoming, Chi, Build, secured, new_mux}
use modeld_go.Http.Mux.Routing.{Documented, IsPlain, headed}
use modeld_go.Http.Mux.Served.{readyz, verb_of, path_of, new_mux-answer}

-- Infer as the service has it
abbrev pub Inference : Type 0
Inference =
    CallContext
    → InferRequest
    → Writer Exchange
    → Option (Exchange → Exchange)
    → Exchange
    → Exchange × Option Error

-- The manager as the service of the HTTP interface
unfoldable pub service_of : Inference → Manager → Service
unfolding list_models status is_up
service_of infer m = record {
  list_models = list_models m;
  status = status m;
  infer = infer;
  ready = is_up m;
}

abbrev code_of : Option (ℤ × Text) → Option ℤ
code_of none = none
code_of (some (code, t)) = some code

-- The status that was sent.
abbrev pub sent_code : Exchange → Option ℤ
sent_code x = code_of x.sent

sent-transmitted :
    (p : Text) (y : Exchange) (r : Option (ℕ × Error)) → (transmitted p y r).0.sent ≡ y.sent
unfolding transmitted
sent-transmitted p y none = refl
sent-transmitted p y (some (k, e)) = refl

write_sent :
    (conn : Connection) (p : Text) (code : ℤ) (x : Exchange)
    → x.sent ≡ none
    → sent_code (response_write conn p (write_header code x)).0 ≡ some code
unfolding response_write write_header send_header
write_sent conn p code x unsent =
    ap code_of (sent-transmitted p (send_header (pos 200) (write_header code x)) _) ∙ rw unsent refl

readyz_sent :
    (env : HttpEnv) (g : Settings) (svc : Service) (x : Exchange)
    → x.sent ≡ none
    → sent_code (get_readyz env g svc x) ≡ some (if svc.ready then pos 200 else pos 503)
unfolding get_readyz
readyz_sent env g svc x unsent = elim (Bool-cases svc.ready) [
  | inl up ↦ rw up (write_sent env.connection (codes "ready") (pos 200) x unsent)
  | inr down ↦ rw down (write_sent env.connection (codes "loading") (pos 503) x unsent)
]

unless_errored :
    (b : Bool)
    → Path
        (Option ℤ)
        (some (if not b then pos 200 else pos 503))
        (some (if b then pos 503 else pos 200))
unless_errored true = refl
unless_errored false = refl

pub sent-headed :
    (chi : Chi) (doc : Documented chi) (build : Build) (env : HttpEnv) (g : Settings) (q : Incoming)
    (x : Exchange)
    → (headed chi doc build env g q x).sent ≡ x.sent
unfolding secured
sent-headed chi doc build env g q x = elim (Bool-cases g.cors_enabled) [
  | inl on ↦ rw on refl
  | inr off ↦ rw off refl
]

-- GET /readyz over a manager with a ready instance, for a plain request whose response has not begun:
-- the status that is sent is 200, unless the manager is in its error state, and then it is 503, in spite of
-- the ready instance.
pub readyz_lem :
    (chi : Chi) (doc : Documented chi) (build : Build) (env : HttpEnv) (g : Settings)
    (infer : Inference) (m : Manager) (id : Text) (q : Incoming) (x : Exchange) (c : Collectors)
    → IsPlain q
    → q.http_method ≡ verb_of readyz
    → q.request.path ≡ path_of readyz
    → x.sent ≡ none
    → has_ready id m ≡ true
    → sent_code (chi.serve_http (new_mux chi build env g (service_of infer m)) q (x, c)).0
      ≡ some (if is_errored m.state then pos 503 else pos 200)
unfolding service_of
readyz_lem chi doc build env g infer m id q x c plain_q verb path unsent up =
    let y = record x { recorded = pos 200 } in
    ap sent_code
      (new_mux-answer chi doc build env g (service_of infer m) readyz q x c plain_q verb path)
    ∙ readyz_sent env g (service_of infer m) (headed chi doc build env g q y)
        (sent-headed chi doc build env g q y ∙ unsent)
    ∙ rw (is_up-has_ready id m up) (unless_errored (is_errored m.state))
