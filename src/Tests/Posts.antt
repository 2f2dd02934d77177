-- ===== src/Tests/Posts.antt =====
-- A whole POST /infer at a concrete input, over the server adapter.
use modeld_go.Common.{true, false, Option, none, some, [], ◌∷◌, ◌++◌, codes, pos, take}
use modeld_go.Types.{InferRequest}
use modeld_go.Errors.{Error, canceled, ok}
use modeld_go.Output.{Writer}
use modeld_go.Manager.{Manager, ready, server}
use modeld_go.Manager.Ensure.{touch}
use modeld_go.Manager.Queue.{begin_generation, request, answer}
use modeld_go.Infer.{InferEnv, infer}
use modeld_go.Generate.{server_session}
use modeld_go.Http.Response.{Exchange}
use modeld_go.Http.Handlers.{CallContext, Service}
use modeld_go.Http.Handlers.Writers.{writer_at, level_of}
use modeld_go.Http.Mux.Ready.{service_of}
use modeld_go.Tests.Fixtures.{llama, two, manager_with, infer_request}
use modeld_go.Tests.Calls.{infer_env}
use modeld_go.Tests.Requests.{http_env, post}
use modeld_go.Http.Mux.{Incoming}
use modeld_go.Tests.Streams.{answers, remote, answer as reply}

abbrev ienv : InferEnv Exchange
ienv = record {
  writer_nil = false;
  context_nil = false;
  ctx_first = none;
  ctx_start = none;
  token_ctx = λ k. none;
  ctx_after = none;
  ensure = infer_env.ensure;
  gen = infer_env.gen;
  spawn = infer_env.spawn;
  spawn_rounds = 50;
  write = writer_at http_env (level_of http_env post);
  flush = none;
  quote = λ t. t;
  token_line = λ t. t ++ codes "\n";
  final_line = λ c. λ r. λ u. ok (codes "done:" ++ c);
  session = λ p. λ q. server_session answers remote p q infer_request.prompt;
  start = λ p. λ q. ok none;
}

abbrev serving : Manager
serving = manager_with ready two (server remote)

abbrev result : Option (Exchange × Manager × Option Error) → Exchange → Exchange × Option Error
result none z = (z, some canceled)
result (some (v, n, e)) z = (v, e)

abbrev calls :
    CallContext
    → InferRequest
    → Writer Exchange
    → Option (Exchange → Exchange)
    → Exchange
    → Exchange × Option Error
calls ctx req write flush z =
    result (infer (record ienv { write = write; flush = flush }) req z serving) z

abbrev svc : Service
svc = service_of calls serving

abbrev admitted_manager : Manager
unfolding begin_generation touch
admitted_manager = (begin_generation ienv.gen llama (touch 9 llama serving)).0

abbrev posting : Incoming
posting = record {
  http_method = codes "POST";
  pattern_ = some [];
  accept_encoding = [];
  request = post;
}
