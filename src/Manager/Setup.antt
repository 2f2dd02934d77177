-- ===== src/Manager/Setup.antt =====
-- The construction and the setters of the manager: NewWithConfig of internal/manager/config.go, and
-- manager.go, ops_switch.go and lru_persist.go.
use modeld_go.Common.{
  ℕ, ◌+◌, ◌/◌, ◌%◌, ◌^◌, true, false, ◌&&◌, not, Option, none, some, List, [], ◌∷◌, ◌++◌, Text,
  codes, is_empty, ℤ, pos, pos_part, if◌then◌else◌, leb_ℤ,
}
use modeld_go.Types.{Model}
use modeld_go.Events.{Publisher, noop}
use modeld_go.Config.{
  ManagerConfig, default_max_queue_depth, default_max_wait, default_drain_timeout, second,
}
use modeld_go.Decimal.{fmt_uint}
use modeld_go.Process.{SubprocessAdapter, new_subprocess_adapter, set_publisher, stop_all}
use modeld_go.Server.{new_server_adapter}
use modeld_go.Manager.{
  Manager, Instance, Adapter, absent, server, subprocess, custom, loading, LruRecord,
}
use modeld_go.Manager.Load.{EnsureEnv}
use modeld_go.Manager.Ensure.{ensure_instance}

-- `if v <= 0 { v = default }`
abbrev pub or_default : ℤ → ℕ → ℕ
or_default v default = if leb_ℤ v (pos 0) then default else pos_part v

unfoldable pub choose_adapter : ManagerConfig → Adapter
unfolding new_subprocess_adapter new_server_adapter
choose_adapter cfg =
    if cfg.spawn_llama && not (is_empty cfg.llama_bin)
    then subprocess (new_subprocess_adapter cfg)
    else if not (is_empty cfg.llama_server_url)
    then server (
        new_server_adapter cfg.llama_server_url cfg.llama_api_key cfg.llama_use_open_ai
          cfg.llama_request_timeout cfg.llama_connect_timeout)
    else absent

abbrev wire : Publisher → Adapter → Adapter
wire p (subprocess a) = subprocess (set_publisher (some p) a)
wire p (server s) = server s
wire p absent = absent
wire p custom = custom

-- NewWithConfig, at the time `now`.
unfoldable pub new_with_config : ManagerConfig → ℕ → Manager
unfolding choose_adapter set_publisher
new_with_config cfg now = record {
  state = loading;
  cur = none;
  err = [];
  registry = cfg.registry;
  budget_mb = cfg.budget_mb;
  margin_mb = cfg.margin_mb;
  default_model = cfg.default_model;
  instances = [];
  used_est_mb = pos 0;
  op_seq = 0;
  publisher = noop;
  max_queue_depth = or_default cfg.max_queue_depth default_max_queue_depth;
  max_wait = or_default cfg.max_wait default_max_wait;
  drain_timeout = or_default cfg.drain_timeout default_drain_timeout;
  start_time = now;
  adapter = wire noop (choose_adapter cfg);
  lru_path = [];
  lru_meta = [];
  next_ref = 0;
}

-- New
unfoldable pub new : List Model → ℤ → ℤ → Text → ℕ → Manager
unfolding new_with_config
new registry budget_mb margin_mb default_model now =
    new_with_config
      (record {
        registry = registry;
        budget_mb = budget_mb;
        margin_mb = margin_mb;
        default_model = default_model;
        max_queue_depth = pos 0;
        max_wait = pos 0;
        drain_timeout = pos 0;
        llama_server_url = [];
        llama_api_key = [];
        llama_request_timeout = pos 0;
        llama_connect_timeout = pos 0;
        llama_use_open_ai = false;
        spawn_llama = false;
        llama_bin = [];
        llama_host = [];
        llama_port_start = pos 0;
        llama_port_end = pos 0;
        llama_threads = pos 0;
        llama_ctx_size = pos 0;
        llama_ngl = pos 0;
        llama_extra_args = [];
      })
      now

-- SetEventPublisher; `none` is nil.
unfoldable pub set_event_publisher : Option Publisher → Manager → Manager
set_event_publisher none m = record m { publisher = noop; adapter = wire noop m.adapter }
set_event_publisher (some p) m = record m { publisher = p; adapter = wire p m.adapter }

-- SetInferenceAdapter
unfoldable pub set_inference_adapter : Adapter → Manager → Manager
set_inference_adapter ad m = record m { adapter = ad }

-- nextOpID. The counter is a uint64, and wraps.
unfoldable pub next_op_id : Manager → Option (Text × Manager)
next_op_id m =
    let n = (m.op_seq + 1) % 2 ^ 64 in
    elim (fmt_uint n) [
      | none ↦ none
      | some digits ↦ some (codes "op-" ++ digits, record m { op_seq = n })
    ]

-- ListModels
unfoldable pub list_models : Manager → List Model
list_models m = m.registry

-- Switch answers with the operation's id at once; the work is an EnsureInstance in the background,
-- whose error is dropped, and whose context has no end.
unfoldable pub switch : Manager → Option (Text × Manager)
switch = next_op_id

unfoldable pub switch_work : EnsureEnv → Text → Manager → Option Manager
switch_work env id m = elim (ensure_instance (record env { warmup = none }) id m) [
  | none ↦ none
  | some (n, _) ↦ some n
]

abbrev pub adopted : Manager → Option (Unit {0} × SubprocessAdapter) → Option Manager
adopted m none = none
adopted m (some (_, b)) = some (record m { adapter = subprocess b })

abbrev pub stop_processes : Adapter → Manager → Option Manager
stop_processes (subprocess a) m = adopted m (stop_all a)
stop_processes ad m = some m

-- StopAllInstances
unfoldable pub stop_all_instances : Manager → Option Manager
stop_all_instances m = stop_processes m.adapter m

-- Close, which has no error.
unfoldable pub close : Manager → Option Manager
unfolding stop_all_instances
close m = stop_all_instances m

-- loadLRUMetadata. The file holds what `read` gives at the path, if it can be opened and decoded.
unfoldable pub load_lru_metadata : (Text → Option (List (Text × LruRecord))) → Manager → Manager
load_lru_metadata read m = elim (is_empty m.lru_path) [
  | true ↦ m
  | false ↦ elim (read m.lru_path) [ none ↦ m | some meta ↦ record m { lru_meta = meta } ]
]

abbrev lru_record : Instance → Text × LruRecord
lru_record i = (i.id, record { last_used_unix = i.last_used / second; est_vram_mb = i.est_vram_mb })

abbrev lru_records : List Instance → List (Text × LruRecord)
lru_records [] = []
lru_records (i ∷ is) = lru_record i ∷ lru_records is

-- saveLRUMetadata: what is written, and where.
unfoldable pub save_lru_metadata : Manager → Option (Text × List (Text × LruRecord))
save_lru_metadata m =
    if is_empty m.lru_path then none else some (m.lru_path, lru_records m.instances)
