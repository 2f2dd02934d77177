-- ===== src/Config.antt =====
-- ManagerConfig of internal/manager/config.go. Durations are nanoseconds.
use modeld_go.Common.{ℕ, Bool, List, Text, ℤ, ◌*◌, ◌^◌}
use modeld_go.Types.{Model}

pub record ManagerConfig : Type 0 where
  pub registry : List Model
  pub budget_mb : ℤ
  pub margin_mb : ℤ
  pub default_model : Text
  pub max_queue_depth : ℤ
  pub max_wait : ℤ
  pub drain_timeout : ℤ
  pub llama_server_url : Text
  pub llama_api_key : Text
  pub llama_request_timeout : ℤ
  pub llama_connect_timeout : ℤ
  pub llama_use_open_ai : Bool
  pub spawn_llama : Bool
  pub llama_bin : Text
  pub llama_host : Text
  pub llama_port_start : ℤ
  pub llama_port_end : ℤ
  pub llama_threads : ℤ
  pub llama_ctx_size : ℤ
  pub llama_ngl : ℤ
  pub llama_extra_args : List Text

abbrev pub default_max_queue_depth : ℕ
default_max_queue_depth = 32

abbrev pub second : ℕ
second = 10 ^ 9

abbrev pub default_max_wait : ℕ
default_max_wait = 30 * second

abbrev pub default_drain_timeout : ℕ
default_drain_timeout = 2 * second
