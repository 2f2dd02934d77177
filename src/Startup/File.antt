-- ===== src/Startup/File.antt =====
-- internal/config/loader.go: the configuration file.
use modeld_go.Common.{
  Bool, false, List, [], ◌++◌, Text, codes, text_eq, is_empty, to_lower, ℤ, pos, if◌then◌else◌,
}
use modeld_go.Errors.{plain, Result, ok, err}
use modeld_go.Startup.Paths.{ext}

-- Config
pub record ConfigFile : Type 0 where
  pub addr : Text
  pub models_dir : Text
  pub vram_budget_mb : ℤ
  pub vram_margin_mb : ℤ
  pub default_model : Text
  pub log_level : Text
  pub max_body_bytes : ℤ
  pub infer_timeout : Text
  pub cors_enabled : Bool
  pub cors_allowed_origins : List Text
  pub cors_allowed_methods : List Text
  pub cors_allowed_headers : List Text
  pub max_queue_depth : ℤ
  pub max_wait : Text
  pub llama_bin : Text
  pub llama_ctx : ℤ
  pub llama_threads : ℤ
  pub llama_server_url : Text
  pub llama_api_key : Text
  pub llama_request_timeout : Text
  pub llama_connect_timeout : Text
  pub llama_use_open_ai : Bool

-- The zero value.
abbrev pub unspecified : ConfigFile
unspecified = record {
  addr = [];
  models_dir = [];
  vram_budget_mb = pos 0;
  vram_margin_mb = pos 0;
  default_model = [];
  log_level = [];
  max_body_bytes = pos 0;
  infer_timeout = [];
  cors_enabled = false;
  cors_allowed_origins = [];
  cors_allowed_methods = [];
  cors_allowed_headers = [];
  max_queue_depth = pos 0;
  max_wait = [];
  llama_bin = [];
  llama_ctx = pos 0;
  llama_threads = pos 0;
  llama_server_url = [];
  llama_api_key = [];
  llama_request_timeout = [];
  llama_connect_timeout = [];
  llama_use_open_ai = false;
}

-- os.ReadFile, and the three decoders.
pub record Reader : Type 0 where
  pub read_file : Text → Result Text
  pub yaml : Text → Result ConfigFile
  pub json : Text → Result ConfigFile
  pub toml : Text → Result ConfigFile

-- The decoder of an extension.
unfoldable pub by_extension : Reader → Text → Text → Result ConfigFile
by_extension rd e b =
    if text_eq e (codes ".yaml")
    then rd.yaml b
    else if text_eq e (codes ".yml")
    then rd.yaml b
    else if text_eq e (codes ".json")
    then rd.json b
    else if text_eq e (codes ".toml")
    then rd.toml b
    else err (plain (codes "unsupported config extension: " ++ e))

abbrev decode_file : Reader → Text → Result Text → Result ConfigFile
decode_file rd path (err e) = err e
decode_file rd path (ok b) = by_extension rd (to_lower (ext path)) b

-- Load
unfoldable pub load : Reader → Text → Result ConfigFile
unfolding by_extension ext
load rd path =
    if is_empty path
    then err (plain (codes "empty config path"))
    else decode_file rd path (rd.read_file path)
