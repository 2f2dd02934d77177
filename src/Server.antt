-- ===== src/Server.antt =====
-- internal/manager/adapter_llama_server.go: the adapter of a llama.cpp server that runs elsewhere.
use modeld_go.Common.{[], ◌∷◌, Text, ℤ, Bool, ◌==◌, if◌then◌else◌}
use mathlib.Core.List.{reverse}

-- llamaServerAdapter, without its HTTP client.
pub record ServerAdapter : Type 0 where
  pub base_url : Text
  pub api_key : Text
  pub use_open_ai : Bool
  pub req_timeout : ℤ
  pub connect_timeout : ℤ

drop_slashes : Text → Text
drop_slashes [] = []
drop_slashes (c ∷ s) = if c == b'/' then drop_slashes s else c ∷ s

-- `strings.TrimRight(s, "/")`.
unfoldable pub trim_right_slashes : Text → Text
unfolding drop_slashes
trim_right_slashes s = reverse (drop_slashes (reverse s))

-- NewLlamaServerAdapter
unfoldable pub new_server_adapter : Text → Text → Bool → ℤ → ℤ → ServerAdapter
new_server_adapter base_url api_key use_open_ai req_timeout connect_timeout = record {
  base_url = trim_right_slashes base_url;
  api_key = api_key;
  use_open_ai = use_open_ai;
  req_timeout = req_timeout;
  connect_timeout = connect_timeout;
}
