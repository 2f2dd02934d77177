-- ===== src/Http/Mux/Routing.antt =====
-- What is documented of chi and of the middlewares that internal/httpapi/server.go takes from others,
-- and the way of a request through the router of NewMux.
use modeld_go.Common.{
  ℕ, ◌≡◌, ◌∙◌, refl, ap, fun_ext, Bool, true, false, ◌&&◌, Option, none, some, List, [], ◌∷◌, ◌++◌,
  Text, codes, text_eq, is_empty, if◌then◌else◌,
}
use modeld_go.Http.Settings.{Settings}
use modeld_go.Http.Response.{Exchange}
use modeld_go.Http.Handlers.{Service, HttpEnv}
use modeld_go.Http.Metrics.{Collectors, metrics_middleware}
use modeld_go.Http.Mux.{
  Incoming, Handler, Middleware, CorsOptions, Chi, Build, without_swagger, with_swagger,
  count_requests, secured, secure, cors_options, with_middlewares, with_routes, mount_swagger,
  new_mux,
}

-- A route, by its method and its pattern.
pub record Route : Type 0 where
  pub http_method : Text
  pub pattern_ : Text
  pub handler : Handler

-- The latest route for the method whose pattern is the path, for patterns with no wildcard.
abbrev pub find_route : Text → Text → List Route → Option Handler
find_route verb path [] = none
find_route verb path (r ∷ rs) =
    if text_eq r.http_method verb && text_eq r.pattern_ path
    then some r.handler
    else find_route verb path rs

abbrev pub routed : Option Handler → Handler → Handler
routed none other q s = other q s
routed (some h) other q s = h (record q { pattern_ = some q.request.path }) s

-- The route is found after the middlewares have begun.
abbrev pub dispatch : List Route → Handler → Handler
dispatch rs other q s = routed (find_route q.http_method q.request.path rs) other q s

abbrev pub through : List Middleware → Handler → Handler
through [] h = h
through (m ∷ ms) h = m (through ms h)

-- The documentation: a router keeps its middlewares in their order and its routes; a request has an
-- empty route pattern until it is routed; `otherwise` serves what no fixed route fits. RequestID,
-- RealIP and Recoverer pass on a request whose handler does not panic, with nothing changed that is
-- read here; Compress does so for a client that takes no encoding; cors adds headers to a request
-- that is not OPTIONS. None of the handlers of others touches this package's collectors.
pub record Documented (chi : Chi) : Type 0 where
  pub uses : chi.Router → List Middleware
  pub routes : chi.Router → List Route
  pub otherwise : chi.Router → Handler
  pub cors_headers : CorsOptions → Incoming → List (Text × Text) → List (Text × Text)
  pub uses_new : uses chi.new_router ≡ []
  pub routes_new : routes chi.new_router ≡ []
  pub uses_with : (m : Middleware) (r : chi.Router) → uses (chi.use_with m r) ≡ uses r ++ m ∷ []
  pub routes_with : (m : Middleware) (r : chi.Router) → routes (chi.use_with m r) ≡ routes r
  pub uses_get : (p : Text) (h : Handler) (r : chi.Router) → uses (chi.get p h r) ≡ uses r
  pub uses_post : (p : Text) (h : Handler) (r : chi.Router) → uses (chi.post p h r) ≡ uses r
  pub routes_get :
      (p : Text) (h : Handler) (r : chi.Router)
      → routes (chi.get p h r)
        ≡ record { http_method = codes "GET"; pattern_ = p; handler = h } ∷ routes r
  pub routes_post :
      (p : Text) (h : Handler) (r : chi.Router)
      → routes (chi.post p h r)
        ≡ record { http_method = codes "POST"; pattern_ = p; handler = h } ∷ routes r
  pub serves :
      (r : chi.Router) (q : Incoming) (s : Exchange × Collectors)
      → chi.serve_http r q s
        ≡ through (uses r) (dispatch (routes r) (otherwise r)) (record q { pattern_ = some [] }) s
  pub request_id_passes :
      (next : Handler) (q : Incoming) (s : Exchange × Collectors)
      → chi.request_id next q s ≡ next q s
  pub real_ip_passes :
      (next : Handler) (q : Incoming) (s : Exchange × Collectors) → chi.real_ip next q s ≡ next q s
  pub recoverer_passes :
      (next : Handler) (q : Incoming) (s : Exchange × Collectors)
      → chi.recoverer next q s ≡ next q s
  pub compress_passes :
      (level : ℕ) (next : Handler) (q : Incoming) (s : Exchange × Collectors)
      → is_empty q.accept_encoding ≡ true
      → chi.compress level next q s ≡ next q s
  pub cors_passes :
      (o : CorsOptions) (next : Handler) (q : Incoming) (x : Exchange) (c : Collectors)
      → text_eq q.http_method (codes "OPTIONS") ≡ false
      → chi.cors_handler o next q (x, c)
        ≡ next q (record x { headers = cors_headers o q x.headers }, c)
  pub prometheus_reads :
      (q : Incoming) (x : Exchange) (c : Collectors) → (chi.prometheus q (x, c)).1 ≡ c
  pub swagger_ui_keeps :
      (q : Incoming) (x : Exchange) (c : Collectors) → (chi.swagger_ui q (x, c)).1 ≡ c
  pub otherwise_keeps :
      (r : chi.Router) (q : Incoming) (x : Exchange) (c : Collectors) → (otherwise r q (x, c)).1 ≡ c

-- A request that no middleware answers or encodes.
abbrev pub IsPlain : Incoming → Type 0
IsPlain q = (is_empty q.accept_encoding ≡ true) × (text_eq q.http_method (codes "OPTIONS") ≡ false)

-- The request before it is routed.
abbrev pub unrouted : Incoming → Incoming
unrouted q = record q { pattern_ = some [] }

module _ (chi : Chi) (doc : Documented chi) (build : Build) (env : HttpEnv) (g : Settings) where
  abbrev cors_headed : Bool → Incoming → Exchange → Exchange
  cors_headed true q x = record x {
    headers = doc.cors_headers (cors_options g) (unrouted q) x.headers;
  }
  cors_headed false q x = x

  -- The exchange with the headers of the middlewares
  abbrev pub headed : Incoming → Exchange → Exchange
  headed q x = cors_headed g.cors_enabled q (secured x)

  uses-mount_swagger :
      (b : Build) (r : chi.Router) → doc.uses (mount_swagger chi build env g b r) ≡ doc.uses r
  unfolding mount_swagger
  uses-mount_swagger without_swagger r = refl
  uses-mount_swagger with_swagger r = doc.uses_get _ _ r

  abbrev first_six : List Middleware
  first_six =
      chi.request_id ∷ chi.real_ip ∷ chi.recoverer ∷ count_requests ∷ chi.compress 5 ∷ secure ∷ []

  uses-optional :
      (on : Bool) (m : Middleware) (r : chi.Router)
      → doc.uses (if on then chi.use_with m r else r)
        ≡ (if on then doc.uses r ++ m ∷ [] else doc.uses r)
  uses-optional true m r = doc.uses_with m r
  uses-optional false m r = refl

  uses-new_mux :
      (svc : Service)
      → doc.uses (new_mux chi build env g svc) ≡ (
          if g.cors_enabled then first_six ++ chi.cors_handler (cors_options g) ∷ [] else first_six)
  unfolding new_mux with_routes with_middlewares
  uses-new_mux svc =
      simp (
        uses-mount_swagger, doc.uses_get, doc.uses_post, uses-optional, doc.uses_with, doc.uses_new,
      )

  beneath_metrics : Bool → Handler → Incoming → Exchange × Collectors → Exchange × Collectors
  beneath_metrics on next q (x, c) = next (unrouted q) (cors_headed on q (secured x), c)

  -- What remains of the middlewares beneath the one that counts
  passed :
      (on : Bool) (next : Handler) (q : Incoming)
      → IsPlain q
      → (s : Exchange × Collectors)
      → through
          (chi.compress 5 ∷ secure ∷ (if on then chi.cors_handler (cors_options g) ∷ [] else []))
          next
          (unrouted q)
          s
        ≡ beneath_metrics on next q s
  unfolding secure beneath_metrics
  passed true next q (bare, verb) (x, c) =
      doc.compress_passes 5 _ (unrouted q) (x, c) bare
      ∙ doc.cors_passes (cors_options g) next (unrouted q) (secured x) c verb
  passed false next q (bare, verb) (x, c) = doc.compress_passes 5 _ (unrouted q) (x, c) bare

  through_all :
      (on : Bool) (next : Handler) (q : Incoming) (s : Exchange × Collectors)
      → IsPlain q
      → through
          (if on then first_six ++ chi.cors_handler (cors_options g) ∷ [] else first_six)
          next
          (unrouted q)
          s
        ≡ metrics_middleware (some []) q.request.path q.http_method (beneath_metrics on next q) s
  unfolding count_requests
  through_all true next q s plain_q =
      doc.request_id_passes _ _ _
      ∙ doc.real_ip_passes _ _ _
      ∙ doc.recoverer_passes _ _ _
      ∙ ap (λ f. metrics_middleware (some []) q.request.path q.http_method f s)
          (fun_ext (passed true next q plain_q))
  through_all false next q s plain_q =
      doc.request_id_passes _ _ _
      ∙ doc.real_ip_passes _ _ _
      ∙ doc.recoverer_passes _ _ _
      ∙ ap (λ f. metrics_middleware (some []) q.request.path q.http_method f s)
          (fun_ext (passed false next q plain_q))

  -- What the router's table answers, beneath the middlewares
  abbrev pub table : Service → Handler
  table svc =
      dispatch (doc.routes (new_mux chi build env g svc))
        (doc.otherwise (new_mux chi build env g svc))

  abbrev pub beneath : Service → Incoming → Exchange × Collectors → Exchange × Collectors
  beneath svc q (x, c) = table svc (unrouted q) (headed q x, c)

  -- A plain request is counted under its own path, whatever the router finds.
  pub serve-new_mux :
      (svc : Service) (q : Incoming) (s : Exchange × Collectors)
      → IsPlain q
      → chi.serve_http (new_mux chi build env g svc) q s
        ≡ metrics_middleware (some []) q.request.path q.http_method (beneath svc q) s
  unfolding beneath_metrics
  serve-new_mux svc q s plain_q =
      doc.serves (new_mux chi build env g svc) q s
      ∙ ap (λ ms. through ms (table svc) (unrouted q) s) (uses-new_mux svc)
      ∙ through_all g.cors_enabled (table svc) q s plain_q
