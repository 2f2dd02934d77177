-- ===== src/Http/Mux/Served.antt =====
-- What the router of internal/httpapi/server.go serves: the endpoints, and what is counted.
use modeld_go.Common.{
  ℕ, ◌<◌, ◌^◌, ◌≡◌, ◌∙◌, refl, ap, Bool, true, false, ◌&&◌, Option, none, some, List, [], ◌∷◌, Text,
  codes, text_eq, text_dec, if◌then◌else◌, pos, Bool-cases, inl, inr,
}
use modeld_go.Http.Settings.{Settings}
use modeld_go.Http.Response.{Exchange}
use modeld_go.Http.Handlers.{
  Service, Request, HttpEnv, post_infer, get_models, get_status, get_healthz, get_readyz,
}
use modeld_go.Http.Metrics.{
  Collectors, Observed, metrics_middleware, route_pattern_or_path, metrics_middleware-Observed,
}
use modeld_go.Http.Mux.{
  Incoming, Handler, Chi, Build, without_swagger, with_swagger, plain, with_middlewares,
  with_routes, mount_swagger, new_mux,
}
use modeld_go.Http.Mux.Routing.{
  Documented, Route, IsPlain, unrouted, find_route, routed, headed, beneath, serve-new_mux,
}

-- The endpoints of the package's own handlers
pub data Endpoint : Type 0 where
  models : Endpoint
  status : Endpoint
  infer : Endpoint
  healthz : Endpoint
  readyz : Endpoint

abbrev pub verb_of : Endpoint → Text
verb_of infer = codes "POST"
verb_of e = codes "GET"

abbrev pub path_of : Endpoint → Text
path_of models = codes "/models"
path_of status = codes "/status"
path_of infer = codes "/infer"
path_of healthz = codes "/healthz"
path_of readyz = codes "/readyz"

-- What each of them promises
abbrev pub answer : HttpEnv → Settings → Service → Endpoint → Request → Exchange → Exchange
answer env g svc models q = get_models env g svc
answer env g svc status q = get_status env g svc
answer env g svc infer q = post_infer env g svc q
answer env g svc healthz q = get_healthz env g
answer env g svc readyz q = get_readyz env g svc

abbrev Keeps : Handler → Type 0
Keeps h = (q : Incoming) (x : Exchange) (c : Collectors) → (h q (x, c)).1 ≡ c

abbrev AllKeep : List Route → Type 0
AllKeep [] = Unit
AllKeep (r ∷ rs) = Keeps r.handler × AllKeep rs

abbrev FoundKeeps : Option Handler → Type 0
FoundKeeps none = Unit
FoundKeeps (some h) = Keeps h

found-FoundKeeps :
    (verb path : Text) (rs : List Route) → AllKeep rs → FoundKeeps (find_route verb path rs)
found-FoundKeeps verb path [] all = tt
found-FoundKeeps verb path (r ∷ rs) (own, all) =
    elim (Bool-cases (text_eq r.http_method verb && text_eq r.pattern_ path)) [
      | inl hit ↦ rw hit own
      | inr miss ↦ rw miss (found-FoundKeeps verb path rs all)
    ]

routed-Keeps :
    (r : Option Handler) (other : Handler) → FoundKeeps r → Keeps other → Keeps (routed r other)
routed-Keeps none other own rest q x c = rest q x c
routed-Keeps (some h) other own rest q x c = own (record q { pattern_ = some q.request.path }) x c

module _ (chi : Chi) (doc : Documented chi) (build : Build) (env : HttpEnv) (g : Settings) where
  -- The latest routes first
  abbrev own_routes : Service → List Route
  own_routes svc =
      record { http_method = codes "GET"; pattern_ = codes "/metrics"; handler = chi.prometheus }
      ∷ record {
        http_method = codes "GET";
        pattern_ = codes "/readyz";
        handler = plain (λ q. get_readyz env g svc);
      }
      ∷ record {
        http_method = codes "GET";
        pattern_ = codes "/healthz";
        handler = plain (λ q. get_healthz env g);
      }
      ∷ record {
        http_method = codes "POST";
        pattern_ = codes "/infer";
        handler = plain (post_infer env g svc);
      }
      ∷ record {
        http_method = codes "GET";
        pattern_ = codes "/status";
        handler = plain (λ q. get_status env g svc);
      }
      ∷ record {
        http_method = codes "GET";
        pattern_ = codes "/models";
        handler = plain (λ q. get_models env g svc);
      }
      ∷ []

  abbrev swagger_route : Route
  swagger_route = record {
    http_method = codes "GET";
    pattern_ = codes "/swagger/*";
    handler = chi.swagger_ui;
  }

  abbrev all_routes : Build → Service → List Route
  all_routes without_swagger svc = own_routes svc
  all_routes with_swagger svc = swagger_route ∷ own_routes svc

  routes-optional :
      (on : Bool) (m : Handler → Handler) (r : chi.Router)
      → doc.routes (if on then chi.use_with m r else r) ≡ doc.routes r
  routes-optional true m r = doc.routes_with m r
  routes-optional false m r = refl

  routes-mux :
      (svc : Service)
      → doc.routes
          (with_routes chi build env g svc (with_middlewares chi build env g chi.new_router))
        ≡ own_routes svc
  unfolding with_routes with_middlewares
  routes-mux svc =
      simp (doc.routes_get, doc.routes_post, routes-optional, doc.routes_with, doc.routes_new)

  routes-mounted :
      (b : Build) (svc : Service) (r : chi.Router)
      → doc.routes r ≡ own_routes svc
      → doc.routes (mount_swagger chi build env g b r) ≡ all_routes b svc
  unfolding mount_swagger
  routes-mounted without_swagger svc r e = e
  routes-mounted with_swagger svc r e = doc.routes_get _ _ r ∙ ap (λ rs. swagger_route ∷ rs) e

  routes-new_mux : (svc : Service) → doc.routes (new_mux chi build env g svc) ≡ all_routes build svc
  unfolding new_mux
  routes-new_mux svc = routes-mounted build svc _ (routes-mux svc)

  found :
      (b : Build) (e : Endpoint) (svc : Service)
      → find_route (verb_of e) (path_of e) (all_routes b svc) ≡ some (plain (answer env g svc e))
  unfolding text_dec
  found without_swagger models svc = refl
  found without_swagger status svc = refl
  found without_swagger infer svc = refl
  found without_swagger healthz svc = refl
  found without_swagger readyz svc = refl
  found with_swagger models svc = refl
  found with_swagger status svc = refl
  found with_swagger infer svc = refl
  found with_swagger healthz svc = refl
  found with_swagger readyz svc = refl

  -- A plain request with the method and the path of one of the endpoints gets the answer of its
  -- handler, for an exchange with the headers of the middlewares and a recorder that starts with 200.
  pub new_mux-answer :
      (svc : Service) (e : Endpoint) (q : Incoming) (x : Exchange) (c : Collectors)
      → IsPlain q
      → q.http_method ≡ verb_of e
      → q.request.path ≡ path_of e
      → (chi.serve_http (new_mux chi build env g svc) q (x, c)).0
        ≡ answer env g svc e q.request
            (headed chi doc build env g q (record x { recorded = pos 200 }))
  unfolding metrics_middleware plain
  new_mux-answer svc e q x c plain_q verb path =
      rw
        (
          serve-new_mux chi doc build env g svc q (x, c) plain_q,
          routes-new_mux svc,
          verb,
          path,
          found build e svc,
        )
        refl

  own_routes-AllKeep : (svc : Service) → AllKeep (own_routes svc)
  unfolding plain
  own_routes-AllKeep svc = (
    doc.prometheus_reads,
    (λ q x c. refl, (λ q x c. refl, (λ q x c. refl, (λ q x c. refl, (λ q x c. refl, tt))))),
  )

  all_routes-AllKeep : (b : Build) (svc : Service) → AllKeep (all_routes b svc)
  all_routes-AllKeep without_swagger svc = own_routes-AllKeep svc
  all_routes-AllKeep with_swagger svc = (doc.swagger_ui_keeps, own_routes-AllKeep svc)

  beneath_keeps :
      (svc : Service) (q : Incoming) (x : Exchange) (c : Collectors)
      → (beneath chi doc build env g svc q (x, c)).1 ≡ c
  beneath_keeps svc q x c = rw (routes-new_mux svc) (
      routed-Keeps (find_route q.http_method q.request.path (all_routes build svc))
        (doc.otherwise (new_mux chi build env g svc))
        (found-FoundKeeps q.http_method q.request.path (all_routes build svc)
          (all_routes-AllKeep build svc))
        (doc.otherwise_keeps (new_mux chi build env g svc)) (unrouted q)
        (headed chi doc build env g q x) c)

  -- Every plain request that leaves a status below 10000, for a route or not, is counted once with that
  -- status, whose digits the label is, under its own path in place of the pattern of a route; the gauge of that path goes up and
  -- down once.
  pub new_mux-Observed :
      (svc : Service) (q : Incoming) (x : Exchange) (c : Collectors) (code : ℕ)
      → IsPlain q
      → (chi.serve_http (new_mux chi build env g svc) q (x, c)).0.recorded ≡ pos code
      → code < 10 ^ 4
      → Observed q.request.path q.http_method
          (pos code)
          c
          (chi.serve_http (new_mux chi build env g svc) q (x, c)).1
  unfolding route_pattern_or_path
  new_mux-Observed svc q x c code plain_q =
      rw (serve-new_mux chi doc build env g svc q (x, c) plain_q) (
        metrics_middleware-Observed (some []) q.request.path q.http_method
          (beneath chi doc build env g svc q) x c code (beneath_keeps svc q))
