-- ===== src/Tests/Starts.antt =====
-- The start of the program, at concrete inputs.
use modeld_go.Common.{
  ◌≡◌, refl, true, false, Option, none, some, text_eq, text_dec, to_lower, if◌then◌else◌, List, [],
  ◌∷◌, Text, codes, ℤ, pos, arith, trim_space, is_space, All,
}
use modeld_go.Errors.{ok}
use modeld_go.Events.{noop}
use modeld_go.Http.Settings.{initial, background}
use modeld_go.Startup.Paths.{join_with, ext}
use modeld_go.Startup.Registry.{Entry}
use modeld_go.Startup.File.{ConfigFile, unspecified, load, by_extension}
use modeld_go.Startup.Flags.{
  Flag, Flags, switched_off, merge, Keeps, merge-Keeps, merge-unspecified,
}
use modeld_go.Startup.Csv.{IsItem, split_csv, split_csv-join_with}
use modeld_go.Startup.Main.{MainEnv, OwnFlags, main, http_settings}
use modeld_go.Startup.Main.Gate.{Served, main-Served, http_settings_short}
use modeld_go.Startup.CommandLine.{Given, command_flags, own_flags}
use modeld_go.Startup.CommandLine.Address.{ListensAt, address, main-ListensAt}
use modeld_go.Tests.Fixtures.{llama}

abbrev entries : List Entry
entries =
    record { name = codes "A.GGUF"; is_dir = false }
    ∷ record { name = codes "old.gguf"; is_dir = true }
    ∷ record { name = codes "notes.txt"; is_dir = false }
    ∷ []

abbrev origins : List Text
origins = codes "a.b" ∷ codes "*" ∷ []

origins-IsItem : All IsItem origins
unfolding trim_space is_space
origins-IsItem = ((refl, refl, (refl, (refl, (refl, tt)))), ((refl, refl, (refl, tt)), tt))

split_csv-join_with_example : split_csv (join_with (codes ",") origins) ≡ origins
split_csv-join_with_example = split_csv-join_with origins origins-IsItem

abbrev unset {ℓ} : {A : Type ℓ} → A → Flag A
unset v = record { value = v; is_set = false }

abbrev flags : Flags
flags = record {
  addr = record { value = codes ":9000"; is_set = true };
  models_dir = unset (codes "~/models/llm");
  vram_budget_mb = unset (pos 0);
  vram_margin_mb = unset (pos 0);
  default_model = unset [];
  log_level = unset [];
  max_body_bytes = unset (pos 1048576);
  infer_timeout = unset (pos 500000000);
  cors_enabled = unset true;
  cors_origins = unset [];
  cors_methods = unset [];
  cors_headers = unset [];
  max_queue_depth = unset (pos 0);
  max_wait = unset (pos 0);
  llama_url = unset (codes "http://127.0.0.1:8081");
  llama_api_key = unset [];
  llama_timeout = unset (pos 30000000000);
  llama_connect_timeout = unset (pos 5000000000);
  llama_use_openai = unset true;
}

abbrev parse : Text → Option ℤ
parse t = none

abbrev file : ConfigFile
file = record unspecified { addr = codes ":7000"; default_model = llama }

merge-Keeps_example :
    let g = merge parse file flags in
    Keeps flags.addr g.addr
    × Keeps flags.models_dir g.models_dir
    × Keeps flags.vram_budget_mb g.vram_budget_mb
    × Keeps flags.vram_margin_mb g.vram_margin_mb
    × Keeps flags.default_model g.default_model
    × Keeps flags.log_level g.log_level
    × Keeps flags.max_body_bytes g.max_body_bytes
    × Keeps flags.infer_timeout g.infer_timeout
    × Keeps flags.cors_enabled g.cors_enabled
    × Keeps flags.cors_origins g.cors_origins
    × Keeps flags.cors_methods g.cors_methods
    × Keeps flags.cors_headers g.cors_headers
    × Keeps flags.max_queue_depth g.max_queue_depth
    × Keeps flags.max_wait g.max_wait
    × Keeps flags.llama_url g.llama_url
    × Keeps flags.llama_api_key g.llama_api_key
    × Keeps flags.llama_timeout g.llama_timeout
    × Keeps flags.llama_connect_timeout g.llama_connect_timeout
    × Keeps flags.llama_use_openai g.llama_use_openai
merge-Keeps_example = merge-Keeps parse file flags

merge-unspecified_example : merge parse unspecified flags ≡ record flags {
  cors_enabled = switched_off flags.cors_enabled;
  llama_use_openai = switched_off flags.llama_use_openai;
}
merge-unspecified_example = merge-unspecified parse flags

abbrev env : MainEnv
env = record {
  parse_duration = parse;
  reader = record {
    read_file = λ p. ok [];
    yaml = λ b. ok file;
    json = λ b. ok file;
    toml = λ b. ok file;
  };
  fs = record { home = ok (codes "/root"); cwd = ok (codes "/"); read_dir = λ d. ok entries };
  checks = record {
    stat = λ p. ok false;
    get = λ url. λ key. λ limit. ok (record { code = pos 200; line = codes "200 OK"; ids = none });
  };
  now = 0;
  stdout = noop;
  open_events = λ p. ok noop;
  logger = 0;
  base_context = background;
}

abbrev own : OwnFlags
own = record {
  config = codes "c.yaml";
  spawn_llama = false;
  llama_bin = [];
  llama_host = [];
  llama_threads = pos 0;
  llama_ctx = pos 0;
  llama_ngl = pos 0;
  llama_port_range = codes "30000-30100";
  events_enable = false;
  events_file = [];
  drain_timeout = pos 0;
}

main-Served_example : Served env (main env own initial flags)
main-Served_example = main-Served env own initial flags

http_settings_short_example : (http_settings env flags initial).infer_timeout ≡ pos 0
http_settings_short_example =
    http_settings_short env initial flags 500000000 refl (omega arith) refl

-- A command line with a configuration file and a port range.
abbrev given : Given
given = record {
  text = λ name.
      if text_eq name (codes "config")
      then some (codes "c.yaml")
      else if text_eq name (codes "llama-port-range")
      then some (codes "30000-30100")
      else none;
  int = λ name. none;
  bool = λ name. none;
  duration = λ name. none;
}

abbrev getenv : Text → Text
getenv name = codes ":6000"

main-ListensAt_example :
    ListensAt
      (address getenv given env initial)
      (main env (own_flags given) initial (command_flags getenv given))
main-ListensAt_example = main-ListensAt getenv given env initial

address_runs : address getenv given env initial ≡ codes ":7000"
unfolding own_flags load by_extension ext text_dec to_lower modeld_go.Common.lower
address_runs = refl
