-- ===== src/Startup/CommandLine.antt =====
-- cmd/modeld/main.go: the flags with their defaults, and the whole program.
pub mod Address
use modeld_go.Common.{
  ◌^◌, ◌*◌, Bool, true, false, Option, none, some, Text, codes, is_empty, ℤ, pos, if◌then◌else◌,
}
use modeld_go.Errors.{Error}
use modeld_go.Config.{second}
use modeld_go.Http.Settings.{Settings}
use modeld_go.Startup.Flags.{Flag, Flags}
use modeld_go.Startup.Main.{MainEnv, OwnFlags, Launch}
use modeld_go.Startup.Shutdown.{HttpServer, Occasion, End, run}

-- What package flag finds on the command line: the last value that is given to the flag of a name and
-- a type, if there is one.
pub record Given : Type 0 where
  pub text : Text → Option Text
  pub int : Text → Option ℤ
  pub bool : Text → Option Bool
  pub duration : Text → Option ℤ

-- flag.String and its like, after flag.Parse and flag.Visit
abbrev pub flag_of {ℓ} : {A : Type ℓ} → A → Option A → Flag A
flag_of default none = record { value = default; is_set = false }
flag_of default (some v) = record { value = v; is_set = true }

abbrev pub value_of {ℓ} : {A : Type ℓ} → A → Option A → A
value_of default g = (flag_of default g).value

abbrev pub default_addr : Text → Text
default_addr modeld_addr = if is_empty modeld_addr then codes ":8080" else modeld_addr

-- The flags that a configuration file can replace, by the environment and the command line.
unfoldable pub command_flags : (Text → Text) → Given → Flags
command_flags getenv g = record {
  addr = flag_of (default_addr (getenv (codes "MODELD_ADDR"))) (g.text (codes "addr"));
  models_dir = flag_of (codes "~/models/llm") (g.text (codes "models-dir"));
  vram_budget_mb = flag_of (pos 0) (g.int (codes "vram-budget-mb"));
  vram_margin_mb = flag_of (pos 0) (g.int (codes "vram-margin-mb"));
  default_model = flag_of (codes "") (g.text (codes "default-model"));
  log_level = flag_of (getenv (codes "MODELD_LOG_LEVEL")) (g.text (codes "log-level"));
  max_body_bytes = flag_of (pos (2 ^ 20)) (g.int (codes "max-body-bytes"));
  infer_timeout = flag_of (pos 0) (g.duration (codes "infer-timeout"));
  cors_enabled = flag_of false (g.bool (codes "cors-enabled"));
  cors_origins = flag_of (codes "") (g.text (codes "cors-origins"));
  cors_methods = flag_of (codes "") (g.text (codes "cors-methods"));
  cors_headers = flag_of (codes "") (g.text (codes "cors-headers"));
  max_queue_depth = flag_of (pos 0) (g.int (codes "max-queue-depth"));
  max_wait = flag_of (pos 0) (g.duration (codes "max-wait"));
  llama_url = flag_of (codes "") (g.text (codes "llama-url"));
  llama_api_key = flag_of (codes "") (g.text (codes "llama-api-key"));
  llama_timeout = flag_of (pos (30 * second)) (g.duration (codes "llama-timeout"));
  llama_connect_timeout = flag_of (pos (5 * second)) (g.duration (codes "llama-connect-timeout"));
  llama_use_openai = flag_of true (g.bool (codes "llama-use-openai"));
}

-- The others
unfoldable pub own_flags : Given → OwnFlags
own_flags g = record {
  config = value_of (codes "") (g.text (codes "config"));
  spawn_llama = value_of false (g.bool (codes "spawn-llama"));
  llama_bin = value_of (codes "") (g.text (codes "llama-bin"));
  llama_host = value_of (codes "127.0.0.1") (g.text (codes "llama-host"));
  llama_threads = value_of (pos 0) (g.int (codes "llama-threads"));
  llama_ctx = value_of (pos 0) (g.int (codes "llama-ctx"));
  llama_ngl = value_of (pos 0) (g.int (codes "llama-ngl"));
  llama_port_range = value_of (codes "") (g.text (codes "llama-port-range"));
  events_enable = value_of false (g.bool (codes "events-enable"));
  events_file = value_of (codes "") (g.text (codes "events-file"));
  drain_timeout = value_of (pos 0) (g.duration (codes "drain-timeout"));
}

unfoldable pub shutdown_timeout : Given → ℤ
shutdown_timeout g = value_of (pos (5 * second)) (g.duration (codes "shutdown-timeout"))

-- The program, by its environment and its command line.
unfoldable pub modeld :
    (Text → Text)
    → Given
    → MainEnv
    → (ℤ → Option Error)
    → (Launch → HttpServer → Occasion)
    → Settings
    → Option End
unfolding command_flags own_flags shutdown_timeout run
modeld getenv given env shutdown meanwhile g =
    run shutdown (shutdown_timeout given) env (own_flags given) g meanwhile
      (command_flags getenv given)
