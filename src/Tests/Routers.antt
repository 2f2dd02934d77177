-- ===== src/Tests/Routers.antt =====
-- The router at concrete inputs, with a small implementation of chi.
use modeld_go.Common.{◌≡◌, refl, true, none, some, List, [], ◌∷◌, ◌++◌, codes, pos, arith, text_dec}
use modeld_go.Manager.{Manager, ready, errored, custom}
use modeld_go.Manager.Ensure.{has_ready}
use modeld_go.Manager.Instances.{find}
use modeld_go.Http.Settings.{Settings, initial}
use modeld_go.Http.Response.{fresh, write_header, send_header}
use modeld_go.Http.Metrics.{Observed, metrics_middleware}
use modeld_go.Http.Mux.{
  Incoming, Handler, Middleware, Chi, without_swagger, with_swagger, new_mux, with_middlewares,
  with_routes, mount_swagger, count_requests, secure,
}
use modeld_go.Http.Mux.Routing.{Route, Documented, dispatch, through, headed}
use modeld_go.Http.Mux.Served.{readyz, answer, new_mux-answer, new_mux-Observed}
use modeld_go.Http.Mux.Ready.{Inference, service_of, sent_code, readyz_lem}
use modeld_go.Tests.Fixtures.{llama, two, manager_with}
use modeld_go.Tests.Requests.{http_env, post, no_requests}

abbrev pub not_found : Handler
unfolding write_header send_header
not_found q (x, c) = (write_header (pos 404) x, c)

abbrev pub small_chi : Chi
small_chi = record {
  Router = List Middleware × List Route;
  new_router = ([], []);
  use_with = λ m r. (r.0 ++ m ∷ [], r.1);
  get = λ p h r. (r.0, record { http_method = codes "GET"; pattern_ = p; handler = h } ∷ r.1);
  post = λ p h r. (r.0, record { http_method = codes "POST"; pattern_ = p; handler = h } ∷ r.1);
  serve_http = λ r q s. through r.0 (dispatch r.1 not_found) (record q { pattern_ = some [] }) s;
  request_id = λ h. h;
  real_ip = λ h. h;
  recoverer = λ h. h;
  compress = λ n h. h;
  cors_handler = λ o h. h;
  prometheus = λ q s. s;
  swagger_ui = λ q s. s;
}

pub small_doc : Documented small_chi
unfolding not_found
small_doc = record {
  uses = λ r. r.0;
  routes = λ r. r.1;
  otherwise = λ r. not_found;
  cors_headers = λ o q hs. hs;
  uses_new = refl;
  routes_new = refl;
  uses_with = λ m r. refl;
  routes_with = λ m r. refl;
  uses_get = λ p h r. refl;
  uses_post = λ p h r. refl;
  routes_get = λ p h r. refl;
  routes_post = λ p h r. refl;
  serves = λ r q s. refl;
  request_id_passes = λ next q s. refl;
  real_ip_passes = λ next q s. refl;
  recoverer_passes = λ next q s. refl;
  compress_passes = λ level next q s bare. refl;
  cors_passes = λ o next q x c verb. refl;
  prometheus_reads = λ q x c. refl;
  swagger_ui_keeps = λ q x c. refl;
  otherwise_keeps = λ r q x c. refl;
}

abbrev no_inference : Inference
no_inference ctx req w flush x = (x, none)

abbrev serving : Manager
serving = manager_with ready two custom

abbrev failed : Manager
failed = manager_with errored two custom

abbrev with_cors : Settings
with_cors = record initial { cors_enabled = true }

abbrev asking : Incoming
asking = record {
  http_method = codes "GET";
  pattern_ = some [];
  accept_encoding = [];
  request = record post { content_type = []; path = codes "/readyz"; body = [] };
}

abbrev astray : Incoming
astray = record asking { request = record post { content_type = []; path = codes "/x"; body = [] } }

new_mux-answer_example :
    (small_chi.serve_http
      (new_mux small_chi with_swagger http_env with_cors (service_of no_inference serving))
      asking
      (fresh, no_requests)).0
    ≡ answer http_env with_cors (service_of no_inference serving) readyz asking.request (
        headed small_chi small_doc with_swagger http_env with_cors asking
          (record fresh { recorded = pos 200 }))
unfolding text_dec
new_mux-answer_example =
    new_mux-answer small_chi small_doc with_swagger http_env with_cors
      (service_of no_inference serving) readyz asking fresh no_requests (refl, refl) refl refl

not_served :
    (small_chi.serve_http
      (new_mux small_chi without_swagger http_env initial (service_of no_inference serving))
      astray
      (fresh, no_requests)).0.recorded
    ≡ pos 404
unfolding new_mux with_middlewares with_routes mount_swagger text_dec write_header
    metrics_middleware count_requests secure not_found
not_served = refl

new_mux-Observed_example :
    Observed
      (codes "/x")
      (codes "GET")
      (pos 404)
      no_requests
      (small_chi.serve_http
        (new_mux small_chi without_swagger http_env initial (service_of no_inference serving))
        astray
        (fresh, no_requests)).1
unfolding text_dec
new_mux-Observed_example =
    new_mux-Observed small_chi small_doc without_swagger http_env initial
      (service_of no_inference serving) astray fresh no_requests 404 (refl, refl) not_served
      (omega arith)

failed-has_ready : has_ready llama failed ≡ true
unfolding has_ready find text_dec
failed-has_ready = refl

readyz_lem_example :
    sent_code
      (small_chi.serve_http
        (new_mux small_chi without_swagger http_env initial (service_of no_inference failed))
        asking
        (fresh, no_requests)).0
    ≡ some (pos 503)
unfolding text_dec
readyz_lem_example =
    readyz_lem small_chi small_doc without_swagger http_env initial no_inference failed llama asking
      fresh no_requests (refl, refl) refl refl refl failed-has_ready
