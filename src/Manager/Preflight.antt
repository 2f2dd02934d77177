-- ===== src/Manager/Preflight.antt =====
-- internal/manager/sanity.go: the checks before the server starts.
pub mod Soundness
use modeld_go.Common.{
  ℕ, ◌≡◌, ◌≢◌, refl, ap, Bool, true, false, ◌&&◌, not, Option, none, some, List, [], ◌∷◌, ◌++◌,
  Text, codes, text_eq, is_empty, ℤ, pos, ltb_ℤ, leb_ℤ, pos_part, if◌then◌else◌, ◌*◌, ◌⊎◌, inl, inr,
  Bool-cases, Option-cases, arith,
}
use modeld_go.Config.{second}
use modeld_go.Types.{Model}
use modeld_go.Errors.{Error, message, Result, ok, err}
use modeld_go.Server.{ServerAdapter}
use modeld_go.Manager.{Manager, Adapter, absent, server, subprocess, custom}
use modeld_go.Manager.Instances.{get_model_by_id}

-- SanityReport
pub record SanityReport : Type 0 where
  pub llama_found : Bool
  pub llama_path : Text
  pub error : Text

-- Check; its field OK is `passed`.
pub record Check : Type 0 where
  pub name : Text
  pub passed : Bool
  pub message : Text

-- What the server answers to GET /v1/models: its status, its status line, and the ids of its list, if
-- the body decodes.
pub record Reply : Type 0 where
  pub code : ℤ
  pub line : Text
  pub ids : Option (List Text)

-- The system and the network: os.Stat gives whether the path is a directory; `get` sends a request with
-- a key and a time limit, and fails when the request cannot be made or sent.
pub record PreflightEnv : Type 0 where
  pub stat : Text → Result Bool
  pub get : Text → Text → ℕ → Result Reply

abbrev pub passes : Text → Check
passes name = record { name = name; passed = true; message = [] }

abbrev pub fails : Text → Text → Check
fails name message = record { name = name; passed = false; message = message }

abbrev pub is_server : Adapter → Bool
is_server (server s) = true
is_server absent = false
is_server (subprocess a) = false
is_server custom = false

abbrev file_path : Result Bool → Text → Text
file_path (ok false) path = path
file_path (ok true) path = []
file_path (err e) path = []

abbrev sane_path : PreflightEnv → Adapter → Option Model → Text
sane_path env ad none = []
sane_path env ad (some x) =
    if is_empty x.path then [] else if is_server ad then [] else file_path (env.stat x.path) x.path

abbrev found : PreflightEnv → Manager → SanityReport
found env m = record {
  llama_found = true;
  llama_path =
      if is_empty m.default_model
      then []
      else sane_path env m.adapter (get_model_by_id m.default_model m.registry);
  error = [];
}

-- SanityCheck
unfoldable pub sanity_check : PreflightEnv → Manager → SanityReport
sanity_check env m = elim m.adapter [
  | absent ↦ record {
    llama_found = false;
    llama_path = [];
    error = codes "llama adapter not initialized";
  }
  | server s ↦ found env m
  | subprocess a ↦ found env m
  | custom ↦ found env m
]

-- The time limit of the probe.
unfoldable pub probe_timeout : ℤ → ℕ
probe_timeout t =
    if ltb_ℤ (pos 0) t
    then if ltb_ℤ (pos (10 * second)) t then 10 * second else pos_part t
    else 5 * second

-- The set of the server's ids; `none` is a nil map.
abbrev pub listed : Option (List Text) → Option (List Text)
listed none = none
listed (some []) = none
listed (some (id ∷ ids)) = some (id ∷ ids)

abbrev pub replied : Result Reply → Check × Option (List Text)
replied (err e) = (fails (codes "server_reachable") (message e), none)
replied (ok r) =
    if leb_ℤ (pos 200) r.code && ltb_ℤ r.code (pos 300)
    then (passes (codes "server_reachable"), listed r.ids)
    else (fails (codes "server_reachable") r.line, none)

unfoldable pub probe : PreflightEnv → ServerAdapter → Check × Option (List Text)
unfolding probe_timeout
probe env s =
    replied (env.get (s.base_url ++ codes "/v1/models") s.api_key (probe_timeout s.req_timeout))

abbrev pub is_in : Text → List Text → Bool
is_in t [] = false
is_in t (u ∷ us) = let rest = is_in t us in if text_eq t u then true else rest

-- The model on the server, if the server gave a list.
unfoldable pub check_listed : Text → Option (List Text) → List Check
check_listed id none = []
check_listed id (some ids) =
    if is_in id ids
    then passes (codes "default_model_available_on_server") ∷ []
    else fails (codes "default_model_available_on_server") (codes "model id not listed by server")
      ∷ []

-- The model's file.
abbrev check_stat : Result Bool → List Check
check_stat (err e) = fails (codes "default_model_path_exists") (message e) ∷ []
check_stat (ok true) =
    fails (codes "default_model_path_is_file")
      (codes "path points to a directory, expected a .gguf file")
    ∷ []
check_stat (ok false) =
    passes (codes "default_model_path_exists") ∷ passes (codes "default_model_path_is_file") ∷ []

unfoldable pub check_file : PreflightEnv → Text → List Check
check_file env path =
    if is_empty path
    then fails (codes "default_model_path_set") (codes "default model path is empty") ∷ []
    else check_stat (env.stat path)

-- The model of the registry; `rest` are the checks of its place.
unfoldable pub check_registry : (Model → List Check) → Option Model → List Check
check_registry rest none =
    fails (codes "default_model_in_registry") (codes "default model id not found in registry") ∷ []
check_registry rest (some x) = passes (codes "default_model_in_registry") ∷ rest x

unfoldable pub check_default : (Model → List Check) → Manager → List Check
unfolding check_registry
check_default rest m =
    if is_empty m.default_model
    then fails (codes "default_model_configured") (codes "no default model configured") ∷ []
    else passes (codes "default_model_configured")
      ∷ check_registry rest (get_model_by_id m.default_model m.registry)

-- Preflight
abbrev check_local : PreflightEnv → Manager → List Check
check_local env m = passes (codes "adapter_present") ∷ check_default (λ x. check_file env x.path) m

abbrev check_server : Manager → Check × Option (List Text) → List Check
check_server m (c, ids) =
    passes (codes "adapter_present") ∷ c ∷ check_default (λ x. check_listed m.default_model ids) m

unfoldable pub checks_of : PreflightEnv → Manager → Adapter → List Check
unfolding probe check_default check_file check_listed
checks_of env m absent =
    fails (codes "adapter_present") (codes "llama adapter not initialized")
    ∷ check_default (λ x. check_file env x.path) m
checks_of env m (server s) = check_server m (probe env s)
checks_of env m (subprocess a) = check_local env m
checks_of env m custom = check_local env m

unfoldable pub preflight : PreflightEnv → Manager → List Check
unfolding checks_of
preflight env m = checks_of env m m.adapter

-- The loop of main.go over the checks.
unfoldable pub all_ok : List Check → Bool
all_ok [] = true
all_ok (c ∷ cs) = c.passed && all_ok cs
