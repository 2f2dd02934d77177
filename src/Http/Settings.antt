-- ===== src/Http/Settings.antt =====
-- internal/httpapi/config.go and context.go, with NewMuxWithOptions of server.go: the package's
-- variables and their setters.
use modeld_go.Common.{
  ℕ, ◌^◌, ◌≡◌, Bool, true, false, Option, none, some, List, [], Text, ℤ, pos, ltb_ℤ, leb_ℤ,
  if◌then◌else◌, arith, Option-cases, inl, inr,
}
use modeld_go.Errors.{Error, canceled}

-- A context.Context, by the name of what ends it; `background` is context.Background().
pub data Context : Type 0 where
  background : Context
  named : ℕ → Context

-- The package's variables. A structured logger is known by a number; `none` is nil.
pub record Settings : Type 0 where
  pub max_body_bytes : ℤ
  pub infer_timeout : ℤ
  pub cors_enabled : Bool
  pub cors_allowed_origins : List Text
  pub cors_allowed_methods : List Text
  pub cors_allowed_headers : List Text
  pub zlog : Option ℕ
  pub server_base_ctx : Context

-- Options
pub record Options : Type 0 where
  pub max_body_bytes : ℤ
  pub infer_timeout_seconds : ℤ
  pub cors_enabled : Bool
  pub cors_allowed_origins : List Text
  pub cors_allowed_methods : List Text
  pub cors_allowed_headers : List Text
  pub logger : Option ℕ
  pub base_context : Option Context

abbrev pub default_max_body : ℤ
default_max_body = pos (2 ^ 20)

-- The values that the variables start with.
abbrev pub initial : Settings
initial = record {
  max_body_bytes = default_max_body;
  infer_timeout = pos 0;
  cors_enabled = false;
  cors_allowed_origins = [];
  cors_allowed_methods = [];
  cors_allowed_headers = [];
  zlog = none;
  server_base_ctx = background;
}

unfoldable pub set_max_body_bytes : ℤ → Settings → Settings
set_max_body_bytes n g =
    if leb_ℤ n (pos 0)
    then record g { max_body_bytes = default_max_body }
    else record g { max_body_bytes = n }

unfoldable pub set_infer_timeout_seconds : ℤ → Settings → Settings
set_infer_timeout_seconds sec g = record g {
  infer_timeout = if ltb_ℤ sec (pos 0) then pos 0 else sec;
}

unfoldable pub set_cors_options : Bool → List Text → List Text → List Text → Settings → Settings
set_cors_options enabled origins methods headers g = record g {
  cors_enabled = enabled;
  cors_allowed_origins = origins;
  cors_allowed_methods = methods;
  cors_allowed_headers = headers;
}

unfoldable pub set_logger : ℕ → Settings → Settings
set_logger l g = record g { zlog = some l }

unfoldable pub set_base_context : Option Context → Settings → Settings
set_base_context none g = record g { server_base_ctx = background }
set_base_context (some c) g = record g { server_base_ctx = c }

unfoldable pub options_from_globals : Settings → Options
options_from_globals g = record {
  max_body_bytes = g.max_body_bytes;
  infer_timeout_seconds = g.infer_timeout;
  cors_enabled = g.cors_enabled;
  cors_allowed_origins = g.cors_allowed_origins;
  cors_allowed_methods = g.cors_allowed_methods;
  cors_allowed_headers = g.cors_allowed_headers;
  logger = g.zlog;
  base_context = some g.server_base_ctx;
}

abbrev with_logger : Option ℕ → Settings → Settings
with_logger none g = g
with_logger (some l) g = set_logger l g

abbrev with_context : Option Context → Settings → Settings
with_context none g = g
with_context (some c) g = set_base_context (some c) g

-- NewMuxWithOptions, before it makes the router.
unfoldable pub apply_options : Options → Settings → Settings
unfolding set_max_body_bytes set_infer_timeout_seconds set_cors_options set_logger set_base_context
apply_options o g =
    let g1 = if ltb_ℤ (pos 0) o.max_body_bytes then set_max_body_bytes o.max_body_bytes g else g in
    let g2 =
      if leb_ℤ (pos 0) o.infer_timeout_seconds
      then set_infer_timeout_seconds o.infer_timeout_seconds g1
      else g1 in
    let g3 =
      set_cors_options o.cors_enabled o.cors_allowed_origins o.cors_allowed_methods
        o.cors_allowed_headers g2 in
    with_context o.base_context (with_logger o.logger g3)

-- ctx.Err() of the context that joinContexts makes, once its goroutine has seen that one of the two is
-- done.
unfoldable pub join_contexts : Option Error → Option Error → Option Error
join_contexts none none = none
join_contexts _ _ = some canceled

-- A positive limit, and a timeout that is not negative.
abbrev pub IsValid : Settings → Type 0
IsValid g = (ltb_ℤ (pos 0) g.max_body_bytes ≡ true) × (leb_ℤ (pos 0) g.infer_timeout ≡ true)

-- The options read from valid variables describe all of them: applied to any other values, they give
-- the same ones, with the logger kept where there was none to copy.
pub apply_options-options_from_globals :
    (g h : Settings)
    → IsValid g
    → apply_options (options_from_globals g) h
      ≡ record g { zlog = elim g.zlog [ none ↦ h.zlog | some l ↦ some l ] }
unfolding apply_options options_from_globals
apply_options-options_from_globals g h (limit, time) = elim (Option-cases g.zlog) [
  | inl bare ↦ ground arith
  | inr (l, own) ↦ ground arith
]
