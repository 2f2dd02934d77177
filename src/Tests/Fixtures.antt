-- ===== src/Tests/Fixtures.antt =====
-- The test data.
use modeld_go.Common.{
  ℕ, ◌*◌, ◌^◌, true, false, Option, none, some, List, [], ◌∷◌, ◌++◌, Text, codes, pos, length,
  if◌then◌else◌, leb,
}
use modeld_go.Types.{Model, InferRequest}
use modeld_go.Errors.{ok}
use modeld_go.Events.{noop}
use modeld_go.Config.{ManagerConfig, second}
use modeld_go.Process.{ProcInfo, SubprocessAdapter}
use modeld_go.Process.Spawn.{SpawnEnv, running}
use modeld_go.Manager.{Manager, Instance, State, Adapter, ready}
use modeld_go.Manager.Load.{EnsureEnv}

abbrev pub llama : Text
llama = codes "a.gguf"

abbrev pub other : Text
other = codes "b.gguf"

abbrev pub model : Text → Model
model id = record { id = id; name = id; path = codes "/m/" ++ id; quant = []; family = [] }

abbrev pub instance_of : Text → ℕ → ℕ → Instance
instance_of id ref used = record {
  ref = ref;
  id = id;
  state = ready;
  last_used = used;
  est_vram_mb = 10;
  gen_len = 0;
  queue_len = 0;
  queue_cap = 2;
  port = pos 0;
  pid = 0;
}

abbrev pub manager_with : State → List Instance → Adapter → Manager
manager_with state instances adapter = record {
  state = state;
  cur = none;
  err = [];
  registry = model llama ∷ model other ∷ [];
  budget_mb = pos 25;
  margin_mb = pos 0;
  default_model = llama;
  instances = instances;
  used_est_mb = pos (10 * length instances);
  op_seq = 0;
  publisher = noop;
  max_queue_depth = 2;
  max_wait = second;
  drain_timeout = 2 * second;
  start_time = 0;
  adapter = adapter;
  lru_path = [];
  lru_meta = [];
  next_ref = 2;
}

abbrev pub two : List Instance
two = instance_of llama 0 5 ∷ instance_of other 1 3 ∷ []

abbrev pub config : ManagerConfig
config = record {
  registry = [];
  budget_mb = pos 0;
  margin_mb = pos 0;
  default_model = [];
  max_queue_depth = pos 0;
  max_wait = pos 0;
  drain_timeout = pos 0;
  llama_server_url = [];
  llama_api_key = [];
  llama_request_timeout = pos 0;
  llama_connect_timeout = pos 0;
  llama_use_open_ai = true;
  spawn_llama = true;
  llama_bin = codes "llama-server";
  llama_host = [];
  llama_port_start = pos 30000;
  llama_port_end = pos 30003;
  llama_threads = pos 0;
  llama_ctx_size = pos 0;
  llama_ngl = pos 0;
  llama_extra_args = [];
}

abbrev pub process : ProcInfo
process = record { base_url = codes "http://127.0.0.1:30000"; ready = true; pid = 7 }

abbrev pub runtime : List (Text × ProcInfo) → SubprocessAdapter
runtime procs = record {
  cfg = config;
  locked = false;
  procs = procs;
  terminated = [];
  publisher = noop;
}

-- A process that is ready at the third look, with a clock in seconds.
abbrev pub spawn : Option ℕ → SpawnEnv
spawn health = record {
  health = health;
  listen = λ p. leb 30001 p;
  free_addr = ok (codes "127.0.0.1:4000");
  start = λ bin. λ args. ok 7;
  started = 0;
  clock = λ k. k * second;
  exit = λ k. running;
  probe = λ k. if leb 2 k then some 200 else none;
}

abbrev pub ensure_env : EnsureEnv
ensure_env = record {
  fast_time = 9;
  stat = λ path. some (pos (12 * 2 ^ 20));
  evict_start = 0;
  evict_clock = λ k. k;
  load_time = 10;
  spawn = spawn none;
  spawn_rounds = 50;
  url_port = λ url. some (pos 30000);
  warmup = none;
  commit_time = 11;
  dur_ms = pos 1;
}

abbrev pub infer_request : InferRequest
infer_request = record {
  model = llama;
  prompt = codes "hi";
  stream = true;
  max_tokens = pos 8;
  temperature = pos 1;
  top_p = pos 1;
  top_k = pos 1;
  stop = [];
  seed = pos 1;
  repeat_penalty = pos 1;
}
