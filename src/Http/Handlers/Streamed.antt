-- ===== src/Http/Handlers/Streamed.antt =====
-- POST /infer from the request to the body of the response, through the handler, Infer and the server
-- adapter (internal/httpapi/server.go, internal/manager/inference.go and adapter_llama_server.go).
use modeld_go.Common.{
  ◌≡◌, ◌∙◌, refl, ap, sym, subst, true, false, Bool-cases, inl, inr, Option, none, some, [], ◌++◌,
  Text, codes, is_empty, trim_space, ℕ, pos, arith,
}
use modeld_go.Types.{InferRequest, Model}
use modeld_go.Errors.{Error}
use modeld_go.Server.{ServerAdapter}
use modeld_go.Output.{safe_flush}
use modeld_go.Manager.{Manager, server}
use modeld_go.Manager.Instances.{get_model_by_id}
use modeld_go.Infer.{InferEnv, params_of, target_of, infer}
use modeld_go.Infer.Document.{document}
use modeld_go.Stream.Tokens.{tokens, last_reason}
use modeld_go.Generate.{GenerateEnv, Reply, final_of, server_session}
use modeld_go.Generate.Sessions.{shown}
use modeld_go.Generate.Served.{Answers, IsLive, IsAdmitted, infer_served}
use modeld_go.Http.Settings.{Settings}
use modeld_go.Http.Logging.{LogLevel, level_info, at_least}
use modeld_go.Http.Response.{Exchange, set_content_type}
use modeld_go.Generate.Keeps.{stream_keeps}
use modeld_go.Http.Handlers.Begun.{
  ndjson, Streams, FlushesOnly, writer-Streams, flushed-Streams, sent_with_document,
}
use modeld_go.Http.Handlers.{
  Service, Request, HttpEnv, limited, log_infer_start, log_infer_end, call_context, answered,
  is_json, decoded, run_infer, post_infer,
}
use modeld_go.Http.Handlers.Writers.{writer_at, level_of, writer-IsOpen}

module _ (env : HttpEnv) (g : Settings) where
  -- The checks of the handler pass.
  abbrev pub IsAccepted : Request → InferRequest → Type 0
  IsAccepted q req =
      (is_json env g q.content_type ≡ true)
      × (env.decode (limited g.max_body_bytes q.body) ≡ some req)
      × (is_empty (trim_space req.prompt) ≡ false)

  -- The exchange with which the service is called.
  abbrev pub begun : Request → InferRequest → Exchange → Exchange
  begun q req x =
      log_infer_start (level_of env q) q.path req.model
        (set_content_type (codes "application/x-ndjson") x)

  body-begun : (q : Request) (req : InferRequest) (x : Exchange) → (begun q req x).body ≡ x.body
  unfolding log_infer_start set_content_type
  body-begun q req x = ground arith

  decoded-asked :
      (svc : Service) (q : Request) (req : InferRequest) (x : Exchange)
      → is_empty (trim_space req.prompt) ≡ false
      → decoded env g svc q (some req) x ≡ run_infer env g svc q req x
  unfolding decoded
  decoded-asked svc q req x asked = rw asked refl

  run_infer-answered :
      (svc : Service) (q : Request) (req : InferRequest) (x : Exchange)
      → run_infer env g svc q req x
        ≡ answered env g (level_of env q) (
            svc.infer
              (call_context env g)
              req
              (writer_at env (level_of env q))
              env.flush
              (begun q req x))
  unfolding run_infer
  run_infer-answered svc q req x = refl

  post_infer-accepted :
      (svc : Service) (q : Request) (req : InferRequest) (x : Exchange)
      → IsAccepted q req
      → post_infer env g svc q x ≡ run_infer env g svc q req x
  unfolding post_infer
  post_infer-accepted svc q req x (json, decodes, asked) =
      rw json (ap (λ o. decoded env g svc q o x) decodes ∙ decoded-asked svc q req x asked)

  body-answered : (lvl : LogLevel) (v : Exchange) → (answered env g lvl (v, none)).body ≡ v.body
  unfolding answered log_infer_end
  body-answered lvl v = ground arith

  begun-Streams :
      (q : Request) (req : InferRequest) (x : Exchange)
      → x.sent ≡ none
      → x.recorded ≡ pos 200
      → Streams x.body (begun q req x)
  unfolding log_infer_start set_content_type
  begun-Streams q req x unsent fresh = elim (Bool-cases (at_least level_info (level_of env q))) [
    | inl logs ↦ rw logs (refl, fresh, inl (unsent, refl))
    | inr quiet ↦ rw quiet (refl, fresh, inl (unsent, refl))
  ]

  sent-answered :
      (lvl : LogLevel) (v : Exchange)
      → ((answered env g lvl (v, none)).sent ≡ v.sent)
        × ((answered env g lvl (v, none)).recorded ≡ v.recorded)
  unfolding answered log_infer_end
  sent-answered lvl v = (ground arith, ground arith)

  -- The service is the manager, wherever its Infer returns.
  abbrev pub Serves : Service → InferEnv Exchange → InferRequest → Manager → Type 0
  Serves svc ienv req m =
      (z v : Exchange) (n : Manager) (e : Option Error)
      → infer ienv req z m ≡ some (v, n, e)
      → svc.infer (call_context env g) req ienv.write ienv.flush z ≡ (v, e)

  post_infer-answered :
      (svc : Service) (q : Request) (req : InferRequest) (x v : Exchange) (ienv : InferEnv Exchange)
      (m n : Manager)
      → IsAccepted q req
      → ienv.write ≡ writer_at env (level_of env q)
      → ienv.flush ≡ env.flush
      → Serves svc ienv req m
      → infer ienv req (begun q req x) m ≡ some (v, n, none)
      → post_infer env g svc q x ≡ answered env g (level_of env q) (v, none)
  post_infer-answered svc q req x v ienv m n accepted writes flushes serves done =
      let lvl = level_of env q in
      let start = begun q req x in
      post_infer-accepted svc q req x accepted
      ∙ run_infer-answered svc q req x
      ∙ ap (λ wr. answered env g lvl (svc.infer (call_context env g) req wr env.flush start))
          (sym writes)
      ∙ ap (λ fl. answered env g lvl (svc.infer (call_context env g) req ienv.write fl start))
          (sym flushes)
      ∙ ap (answered env g lvl) (serves start v n none done)

-- The status and the body of a response.
abbrev pub Delivered : Text → Exchange → Type 0
Delivered body y = (y.sent ≡ some (pos 200, ndjson)) × (y.recorded ≡ pos 200) × (y.body ≡ body)

-- A POST /infer that the handler accepts, with a response that has not begun, over a connection that
-- takes everything and whose flush sends the header at most, for a model that is loaded and has a free
-- slot, and over a server that answers: the client gets 200 with the type application/x-ndjson, the
-- recorder has 200, and the body is a line for each content that is not empty of the payloads before the
-- done mark, and then the final line, with the last finish reason that is not empty.
pub post_infer_served :
    (env : HttpEnv) (g : Settings) (svc : Service) (q : Request) (x : Exchange)
    (ienv : InferEnv Exchange) (req : InferRequest) (m n : Manager) (ref : ℕ) (a : ServerAdapter)
    (mdl : Model) (genv : GenerateEnv) (r : Reply)
    → IsAccepted env g q req
    → x.sent ≡ none
    → x.recorded ≡ pos 200
    → ((p : Text) (y : Exchange) → env.connection p y ≡ none)
    → ((y : Exchange) → FlushesOnly y (safe_flush env.flush y))
    → ienv.write ≡ writer_at env (level_of env q)
    → ienv.flush ≡ env.flush
    → Serves env g svc ienv req m
    → IsLive ienv
    → IsAdmitted ienv req m n ref
    → n.adapter ≡ server a
    → get_model_by_id (target_of ienv req m) n.registry ≡ some mdl
    → is_empty (trim_space mdl.path) ≡ false
    → ienv.session (trim_space mdl.path) (params_of req)
      ≡ server_session genv a (trim_space mdl.path) (params_of req) req.prompt
    → Answers genv a (trim_space mdl.path) (params_of req) req.prompt r
    → Delivered
        (x.body
          ++ document ienv
              (λ y. y.body)
              (tokens genv.decoder (shown r))
              (final_of (last_reason genv.decoder [] (shown r))))
        (post_infer env g svc q x)
post_infer_served env g svc q x ienv req m n ref a mdl genv r accepted unsent fresh good flush
      writes flushes serves live ready e known named bound answers =
    let lvl = level_of env q in
    let start = begun env g q req x in
    let ts = tokens genv.decoder (shown r) in
    let f = final_of (last_reason genv.decoder [] (shown r)) in
    let flush_keeps : (y : Exchange) → FlushesOnly y (safe_flush ienv.flush y) =
      subst (λ fl. (y : Exchange) → FlushesOnly y (safe_flush fl y)) (sym flushes) flush in
    let (v, done, whole, streamed) =
      infer_served ienv (λ y. y.body) req m n start ref a mdl genv r
        (writer-IsOpen env lvl ienv good flush_keeps writes) live ready e known named bound
        answers in
    let body : v.body ≡ x.body ++ document ienv (λ y. y.body) ts f =
      whole ∙ ap (λ t. t ++ document ienv (λ y. y.body) ts f) (body-begun env g q req x) in
    let kept : Streams x.body v = subst (Streams x.body) (sym streamed) (
      stream_keeps ienv (Streams x.body)
        (subst (λ wr. (p : Text) (y : Exchange) → Streams x.body y → Streams x.body (wr p y).0)
          (sym writes) (writer-Streams env lvl x.body))
        (λ y. flushed-Streams x.body y (safe_flush ienv.flush y) (flush_keeps y)) genv a
        (trim_space mdl.path) (params_of req) req.prompt start
        (begun-Streams env g q req x unsent fresh)) in
    let (_, _, _, _, _, encodes) = live in
    subst (Delivered _)
      (sym (post_infer-answered env g svc q req x v ienv m _ accepted writes flushes serves done))
      (
        (sent-answered env g lvl v).0 ∙ sent_with_document ienv ts f x.body v encodes kept body,
        (sent-answered env g lvl v).1 ∙ kept.1,
        body-answered env g lvl v ∙ body,
      )
