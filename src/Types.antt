-- ===== src/Types.antt =====
-- pkg/types: the records that the HTTP interface and the manager share.
-- `temperature`, `top_p` and `repeat_penalty` are floats that the program only hands on: they are
-- numbers of some unit here, and nothing computes with them.
use modeld_go.Common.{ℕ, Bool, List, Text, ℤ}

-- types.Model
pub record Model : Type 0 where
  pub id : Text
  pub name : Text
  pub path : Text
  pub quant : Text
  pub family : Text

-- types.InferRequest
pub record InferRequest : Type 0 where
  pub model : Text
  pub prompt : Text
  pub stream : Bool
  pub max_tokens : ℤ
  pub temperature : ℤ
  pub top_p : ℤ
  pub top_k : ℤ
  pub stop : List Text
  pub seed : ℤ
  pub repeat_penalty : ℤ

-- types.ErrorResponse
pub record ErrorResponse : Type 0 where
  pub error : Text
  pub code : ℤ

-- types.InstanceStatus
pub record InstanceStatus : Type 0 where
  pub model_id : Text
  pub state : Text
  pub last_used : ℕ
  pub est_vram_mb : ℕ
  pub queue_len : ℕ
  pub inflight : ℕ
  pub max_queue_depth : ℕ
  pub port : ℤ
  pub pid : ℤ

-- types.StatusResponse
pub record StatusResponse : Type 0 where
  pub instances : List InstanceStatus
  pub budget_mb : ℤ
  pub used_mb : ℤ
  pub margin_mb : ℤ
  pub error : Text
  pub last_error : Text
  pub uptime_seconds : ℤ
  pub server_time_unix : ℤ
  pub evictions_total : ℕ
  pub loads_total : ℕ
  pub state : Text
  pub warmups_in_progress : ℕ
  pub draining_count : ℕ
