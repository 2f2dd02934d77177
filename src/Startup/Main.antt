-- ===== src/Startup/Main.antt =====
-- cmd/modeld/main.go, from the parsed flags to the settings with which the server listens.
pub mod Stages
pub mod Gate
use modeld_go.Common.{
  ℕ, suc, ◌/◌, ◌-◌, Bool, true, false, ◌&&◌, not, Option, none, some, List, [], ◌∷◌, ◌++◌, Text,
  codes, text_eq, is_empty, trim_space, to_lower, ℤ, pos, negsuc, leb_ℤ, if◌then◌else◌, ◌==◌, atoi,
}
use modeld_go.Types.{Model}
use modeld_go.Errors.{Error, message, Result, ok, err}
use modeld_go.Config.{ManagerConfig, second}
use modeld_go.Events.{Publisher}
use modeld_go.Manager.{Manager}
use modeld_go.Manager.Setup.{new_with_config, set_event_publisher}
use modeld_go.Manager.Preflight.{PreflightEnv, preflight, all_ok}
use modeld_go.Http.Settings.{
  Settings, Context, set_max_body_bytes, set_infer_timeout_seconds, set_cors_options, set_logger,
  set_base_context,
}
use modeld_go.Startup.Paths.{expand_models_dir}
use modeld_go.Startup.Registry.{FileSystem, scan}
use modeld_go.Startup.File.{ConfigFile, Reader, load}
use modeld_go.Startup.Flags.{Flag, Flags, merge}
use modeld_go.Startup.Csv.{split_csv}

-- The flags that no configuration file replaces.
pub record OwnFlags : Type 0 where
  pub config : Text
  pub spawn_llama : Bool
  pub llama_bin : Text
  pub llama_host : Text
  pub llama_threads : ℤ
  pub llama_ctx : ℤ
  pub llama_ngl : ℤ
  pub llama_port_range : Text
  pub events_enable : Bool
  pub events_file : Text
  pub drain_timeout : ℤ

-- zerolog's global level
pub data GlobalLevel : Type 0 where
  disabled : GlobalLevel
  error_level : GlobalLevel
  debug_level : GlobalLevel
  info_level : GlobalLevel

-- What main uses of the system: time.ParseDuration, the configuration reader, the file system, the
-- checks' system calls, the clock, the publisher for standard output, the opening of an events file,
-- the logger and the base context.
pub record MainEnv : Type 0 where
  pub parse_duration : Text → Option ℤ
  pub reader : Reader
  pub fs : FileSystem
  pub checks : PreflightEnv
  pub now : ℕ
  pub stdout : Publisher
  pub open_events : Text → Result Publisher
  pub logger : ℕ
  pub base_context : Context

-- What main listens with.
pub record Launch : Type 0 where
  pub addr : Text
  pub models_dir : Text
  pub manager : Manager
  pub settings : Settings
  pub level : GlobalLevel

-- `log.Fatalf`, or the server.
pub data Start : Type 0 where
  fatal : Text → Start
  listening : Launch → Start

-- strings.SplitN(s, "-", 2), if it has two parts.
unfoldable pub split_dash : Text → Option (Text × Text)
split_dash [] = none
split_dash (c ∷ s) = elim (c == b'-') [
  | true ↦ some ([], s)
  | false ↦ elim (split_dash s) [ none ↦ none | some (a, b) ↦ some (c ∷ a, b) ]
]

abbrev number_or_zero : Text → ℤ
number_or_zero s = elim (atoi (trim_space s)) [ none ↦ pos 0 | some v ↦ v ]

unfoldable pub parse_port_range : Text → ℤ × ℤ
unfolding split_dash atoi trim_space
parse_port_range s = elim (split_dash (trim_space s)) [
  | none ↦ (pos 0, pos 0)
  | some (a, b) ↦ (number_or_zero a, number_or_zero b)
]

-- The first model of the registry, where no default was asked for.
unfoldable pub pick_default : Flag Text → List Model → Text
pick_default f [] = f.value
pick_default f (x ∷ reg) = if not f.is_set && is_empty f.value then x.id else f.value

unfoldable pub global_level : Text → GlobalLevel
unfolding to_lower trim_space
global_level s =
    let l = to_lower (trim_space s) in
    if is_empty l
    then disabled
    else if text_eq l (codes "off")
    then disabled
    else if text_eq l (codes "error")
    then error_level
    else if text_eq l (codes "debug")
    then debug_level
    else info_level

-- `int64(d.Seconds())`: towards zero.
abbrev pub whole_seconds : ℤ → ℤ
whole_seconds (pos n) = pos (n / second)
whole_seconds (negsuc n) = if suc n / second == 0 then pos 0 else negsuc (suc n / second - 1)

unfoldable pub manager_config : OwnFlags → Flags → List Model → ManagerConfig
unfolding parse_port_range pick_default
manager_config own f reg =
    let (port_start, port_end) = parse_port_range own.llama_port_range in
    record {
      registry = reg;
      budget_mb = f.vram_budget_mb.value;
      margin_mb = f.vram_margin_mb.value;
      default_model = pick_default f.default_model reg;
      max_queue_depth = f.max_queue_depth.value;
      max_wait = f.max_wait.value;
      drain_timeout = own.drain_timeout;
      llama_server_url = f.llama_url.value;
      llama_api_key = f.llama_api_key.value;
      llama_request_timeout = f.llama_timeout.value;
      llama_connect_timeout = f.llama_connect_timeout.value;
      llama_use_open_ai = f.llama_use_openai.value;
      spawn_llama = own.spawn_llama;
      llama_bin = own.llama_bin;
      llama_host = own.llama_host;
      llama_port_start = port_start;
      llama_port_end = port_end;
      llama_threads = own.llama_threads;
      llama_ctx_size = own.llama_ctx;
      llama_ngl = own.llama_ngl;
      llama_extra_args = [];
    }

abbrev list_or : List Text → Text → List Text
list_or default s = if is_empty s then default else split_csv s

abbrev default_methods : List Text
default_methods = codes "GET" ∷ codes "POST" ∷ codes "OPTIONS" ∷ []

abbrev default_headers : List Text
default_headers =
    codes "Accept"
    ∷ codes "Authorization"
    ∷ codes "Content-Type"
    ∷ codes "X-Requested-With"
    ∷ codes "X-Log-Level"
    ∷ []

abbrev pub is_zero : ℤ → Bool
is_zero n = leb_ℤ n (pos 0) && leb_ℤ (pos 0) n

-- The settings of the HTTP layer.
unfoldable pub http_settings : MainEnv → Flags → Settings → Settings
unfolding set_base_context set_logger set_max_body_bytes set_infer_timeout_seconds set_cors_options
    split_csv
http_settings env f g =
    let g1 = set_logger env.logger (set_base_context (some env.base_context) g) in
    let g2 = set_max_body_bytes f.max_body_bytes.value g1 in
    let g3 =
      if is_zero f.infer_timeout.value
      then g2
      else set_infer_timeout_seconds (whole_seconds f.infer_timeout.value) g2 in
    set_cors_options f.cors_enabled.value (list_or [] f.cors_origins.value)
      (list_or default_methods f.cors_methods.value) (list_or default_headers f.cors_headers.value)
      g3

module _ (env : MainEnv) (own : OwnFlags) (g : Settings) where
  -- The checks, and what follows when all pass.
  unfoldable pub gate : Flags → Manager → Start
  unfolding preflight all_ok http_settings global_level expand_models_dir
  gate f m =
      if all_ok (preflight env.checks m)
      then listening (record {
        addr = f.addr.value;
        models_dir = expand_models_dir env.fs.home f.models_dir.value;
        manager = m;
        settings = http_settings env f g;
        level = global_level f.log_level.value;
      })
      else fatal (codes "preflight failed; resolve issues above and restart")

  -- The publisher.
  unfoldable pub with_events : Flags → Manager → Result Manager
  unfolding set_event_publisher
  with_events f m =
      if not own.events_enable
      then ok m
      else if is_empty own.events_file
      then ok (set_event_publisher (some env.stdout) m)
      else elim (env.open_events own.events_file) [
        | err e ↦ err e
        | ok p ↦ ok (set_event_publisher (some p) m)
      ]

  abbrev opened : Flags → Result Manager → Start
  opened f (err e) = fatal (codes "open events file: " ++ message e)
  opened f (ok m) = gate f m

  abbrev scanned : Flags → Result (List Model) → Start
  scanned f (err e) = fatal (codes "failed to load models: " ++ message e)
  scanned f (ok reg) = opened f (with_events f (new_with_config (manager_config own f reg) env.now))

  -- With the merged flags.
  unfoldable pub start : Flags → Start
  unfolding gate with_events manager_config new_with_config scan expand_models_dir
  start f = scanned f (scan env.fs (expand_models_dir env.fs.home f.models_dir.value))

  abbrev merged : Flags → Result ConfigFile → Start
  merged f (err e) = fatal (codes "failed to load config file: " ++ message e)
  merged f (ok cfg) = start (merge env.parse_duration cfg f)

  -- main, up to the listening.
  unfoldable pub main : Flags → Start
  unfolding start merge load
  main f = if is_empty own.config then start f else merged f (load env.reader own.config)
