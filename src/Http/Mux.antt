-- ===== src/Http/Mux.antt =====
-- internal/httpapi/server.go, NewMux and NewMuxWithOptions, with swagger_stub.go and
-- swagger_enabled.go: the middlewares and the routes, for any implementation of chi.
pub mod Routing
pub mod Served
pub mod Ready
pub mod Posted
use modeld_go.Common.{
  ℕ, Bool, true, false, ◌&&◌, Option, none, some, List, [], ◌∷◌, Text, codes, text_eq,
  if◌then◌else◌,
}
use modeld_go.Http.Settings.{Settings, Options, apply_options}
use modeld_go.Http.Response.{Exchange}
use modeld_go.Http.Handlers.{
  Service, Request, HttpEnv, post_infer, get_models, get_status, get_healthz, get_readyz,
}
use modeld_go.Http.Metrics.{Collectors, metrics_middleware}

-- What the middlewares and chi read of a request: `pattern_` is the pattern of chi's route context,
-- `none` where there is no route context.
pub record Incoming : Type 0 where
  pub http_method : Text
  pub pattern_ : Option Text
  pub accept_encoding : Text
  pub request : Request

-- http.Handler, on the exchange and what the collectors hold
abbrev pub Handler : Type 0
Handler = Incoming → Exchange × Collectors → Exchange × Collectors

abbrev pub Middleware : Type 0
Middleware = Handler → Handler

-- cors.Options
pub record CorsOptions : Type 0 where
  pub allowed_origins : List Text
  pub allowed_methods : List Text
  pub allowed_headers : List Text
  pub allow_credentials : Bool
  pub max_age : ℕ

-- What NewMux uses of chi, its middlewares, cors, promhttp and http-swagger.
pub record Chi : Type 1 where
  pub Router : Type 0
  pub new_router : Router
  pub use_with : Middleware → Router → Router
  pub get : Text → Handler → Router → Router
  pub post : Text → Handler → Router → Router
  pub serve_http : Router → Handler
  pub request_id : Middleware
  pub real_ip : Middleware
  pub recoverer : Middleware
  pub compress : ℕ → Middleware
  pub cors_handler : CorsOptions → Middleware
  pub prometheus : Handler
  pub swagger_ui : Handler

-- The build tag `swagger`.
pub data Build : Type 0 where
  without_swagger : Build
  with_swagger : Build

-- MetricsMiddleware, as a middleware of chi
unfoldable pub count_requests : Middleware
unfolding metrics_middleware
count_requests next q s = metrics_middleware q.pattern_ q.request.path q.http_method (next q) s

-- Header().Set
unfoldable pub set_header : Text → Text → List (Text × Text) → List (Text × Text)
set_header k v [] = (k, v) ∷ []
set_header k v ((j, w) ∷ hs) = if text_eq j k then (k, v) ∷ hs else (j, w) ∷ set_header k v hs

-- The exchange with the security header
unfoldable pub secured : Exchange → Exchange
unfolding set_header
secured x = record x {
  headers = set_header (codes "X-Content-Type-Options") (codes "nosniff") x.headers;
}

-- The middleware for it
unfoldable pub secure : Middleware
unfolding secured
secure next q (x, c) = next q (secured x, c)

-- The handlers of the package leave the collectors of the metrics middleware alone.
unfoldable pub plain : (Request → Exchange → Exchange) → Handler
plain f q (x, c) = (f q.request x, c)

unfoldable pub cors_options : Settings → CorsOptions
cors_options g = record {
  allowed_origins = g.cors_allowed_origins;
  allowed_methods = g.cors_allowed_methods;
  allowed_headers = g.cors_allowed_headers;
  allow_credentials = false;
  max_age = 300;
}

module _ (chi : Chi) (build : Build) (env : HttpEnv) (g : Settings) where
  -- MountSwagger
  unfoldable pub mount_swagger : Build → chi.Router → chi.Router
  mount_swagger without_swagger r = r
  mount_swagger with_swagger r = chi.get (codes "/swagger/*") chi.swagger_ui r

  unfoldable pub with_middlewares : chi.Router → chi.Router
  unfolding count_requests secure cors_options
  with_middlewares r =
      let r1 =
        chi.use_with chi.recoverer (chi.use_with chi.real_ip (chi.use_with chi.request_id r)) in
      let r2 =
        chi.use_with secure (chi.use_with (chi.compress 5) (chi.use_with count_requests r1)) in
      if g.cors_enabled then chi.use_with (chi.cors_handler (cors_options g)) r2 else r2

  unfoldable pub with_routes : Service → chi.Router → chi.Router
  unfolding plain get_models get_status post_infer get_healthz get_readyz
  with_routes svc r =
      let r1 = chi.get (codes "/models") (plain (λ q. get_models env g svc)) r in
      let r2 = chi.get (codes "/status") (plain (λ q. get_status env g svc)) r1 in
      let r3 = chi.post (codes "/infer") (plain (post_infer env g svc)) r2 in
      let r4 = chi.get (codes "/healthz") (plain (λ q. get_healthz env g)) r3 in
      let r5 = chi.get (codes "/readyz") (plain (λ q. get_readyz env g svc)) r4 in
      chi.get (codes "/metrics") chi.prometheus r5

  -- NewMux
  unfoldable pub new_mux : Service → chi.Router
  unfolding with_middlewares with_routes mount_swagger
  new_mux svc = mount_swagger build (with_routes svc (with_middlewares chi.new_router))

-- NewMuxWithOptions, with the variables that it leaves
unfoldable pub new_mux_with_options :
    (chi : Chi) → Build → HttpEnv → Service → Options → Settings → Settings × chi.Router
unfolding apply_options new_mux
new_mux_with_options chi build env svc o g =
    let h = apply_options o g in (h, new_mux chi build env h svc)
