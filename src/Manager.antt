-- ===== src/Manager.antt =====
-- The state of internal/manager: types.go, and the Manager of manager.go with its setters.
-- A mutex of the manager guards each of its critical sections, which are single functions here; the
-- mutex itself is never held across a call that takes it, so it is not a field.
pub mod Instances
pub mod Setup
pub mod Evict
pub mod Load
pub mod Ensure
pub mod Unload
pub mod Queue
pub mod Status
pub mod Preflight
use modeld_go.Common.{ℕ, Bool, Option, none, some, List, Text, ℤ}
use modeld_go.Types.{Model}
use modeld_go.Events.{Event, Publisher, publish, Field}
use modeld_go.Process.{SubprocessAdapter}
use modeld_go.Server.{ServerAdapter}

-- State
pub data State : Type 0 where
  ready loading errored draining : State

-- ModelInfo
pub record ModelInfo : Type 0 where
  pub id : Text
  pub name : Text
  pub path : Text
  pub quant : Text
  pub family : Text

-- Snapshot
pub record Snapshot : Type 0 where
  pub state : State
  pub current_model : Option ModelInfo
  pub err : Text

-- Instance. `ref` stands for the address of the struct, which tells an instance from a later one of
-- the same id. Of the two channels, which carry empty structs, the numbers of items are kept.
pub record Instance : Type 0 where
  pub ref : ℕ
  pub id : Text
  pub state : State
  pub last_used : ℕ
  pub est_vram_mb : ℕ
  pub gen_len : ℕ
  pub queue_len : ℕ
  pub queue_cap : ℕ
  pub port : ℤ
  pub pid : ℕ

-- InferenceAdapter: none, one of the two that the package implements, or another.
pub data Adapter : Type 0 where
  absent : Adapter
  server : ServerAdapter → Adapter
  subprocess : SubprocessAdapter → Adapter
  custom : Adapter

-- lruRecord
pub record LruRecord : Type 0 where
  pub last_used_unix : ℕ
  pub est_vram_mb : ℕ

-- Manager. The map `instances` is a list with the key of an entry as its `id`, in any order;
-- `next_ref` is the address of the next instance.
pub record Manager : Type 0 where
  pub state : State
  pub cur : Option ModelInfo
  pub err : Text
  pub registry : List Model
  pub budget_mb : ℤ
  pub margin_mb : ℤ
  pub default_model : Text
  pub instances : List Instance
  pub used_est_mb : ℤ
  pub op_seq : ℕ
  pub publisher : Publisher
  pub max_queue_depth : ℕ
  pub max_wait : ℕ
  pub drain_timeout : ℕ
  pub start_time : ℕ
  pub adapter : Adapter
  pub lru_path : Text
  pub lru_meta : List (Text × LruRecord)
  pub next_ref : ℕ

-- `m.publisher.Publish(Event{…})`
unfoldable pub announce : Text → Text → List (Text × Field) → Manager → Manager
announce name id fields m = record m {
  publisher = publish m.publisher (record { name = name; model_id = id; fields = fields });
}
