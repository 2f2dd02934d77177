-- ===== src/Manager/Ensure.antt =====
-- EnsureInstance and EnsureModel of internal/manager/instance_ensure.go. Each section under the
-- manager's mutex, and each wait between two of them, is a function; `ensure_instance` runs them in
-- the order of the source.
pub mod Runtime
pub mod Books
use modeld_go.Common.{
  ◌||◌, ◌==◌, ℕ, ◌+◌, Bool, true, false, Option, none, some, List, [], ◌∷◌, Text, codes, text_eq,
  is_empty, ℤ, pos, if◌then◌else◌, ltb_ℤ, ◌+ℤ◌,
}
use modeld_go.Manager.Load.{
  EnsureEnv, begin_load, set_error, note_process, of_ref, announce_process, after_info, after_spawn,
  spawn_runtime, commit, warm_up, after_runtime, load,
}
use modeld_go.Types.{Model}
use modeld_go.Errors.{Error, Result, ok, err, message, model_not_found}
use modeld_go.Events.{int, text}
use modeld_go.Process.{ProcInfo, SubprocessAdapter, get_proc_info}
use modeld_go.Process.Spawn.{SpawnEnv, ensure_process}
use modeld_go.Manager.{
  Manager, Instance, ModelInfo, ready, loading, errored, Adapter, subprocess, announce,
}
use modeld_go.Manager.Instances.{find, put, update_at, get_model_by_id, estimate_vram_mb, is_ready}
use modeld_go.Manager.Evict.{evict_until_fits}

-- `m.instances[id]` with a state of StateReady.
unfoldable pub has_ready : Text → Manager → Bool
has_ready id m = elim (find id m.instances) [ none ↦ false | some i ↦ is_ready i.state ]

-- The fast path: a ready instance is only touched. (Both of its checks, which no other step parts here.)
unfoldable pub touch : ℕ → Text → Manager → Manager
touch now id m = elim (find id m.instances) [
  | none ↦ m
  | some i ↦ record m {
    instances = update_at i.ref (λ j. record j { last_used = now }) m.instances;
  }
]

-- Room is made, if a budget is set.
unfoldable pub make_room : EnsureEnv → ℕ → Manager → Option (Manager × Option Error)
make_room env required m =
    if ltb_ℤ (pos 0) m.budget_mb
    then evict_until_fits env.evict_start env.evict_clock required m
    else some (m, none)

unfoldable pub after_room :
    EnsureEnv → Text → Model → ℕ → Option (Manager × Option Error) → Option (Manager × Option Error)
unfolding announce
after_room env id x required none = none
after_room env id x required (some (n, some e)) =
    some
      (announce (codes "ensure_budget_fail") id ((codes "error", text (message e)) ∷ []) n, some e)
after_room env id x required (some (n, none)) = load env id x required n

-- The slow path for a model of the registry.
unfoldable pub ensure_registered :
    EnsureEnv → Text → Model → Manager → Option (Manager × Option Error)
ensure_registered env id x m =
    let required = estimate_vram_mb (env.stat x.path) in
    after_room env id x required (make_room env required m)

-- The call for a model id that is set.
unfoldable pub ensure_named : EnsureEnv → Text → Manager → Option (Manager × Option Error)
ensure_named env id m =
    let begun = announce (codes "ensure_start") id [] m in
    if has_ready id begun
    then some (touch env.fast_time id begun, none)
    else elim (get_model_by_id id begun.registry) [
      | none ↦
          some (announce (codes "ensure_model_not_found") id [] begun, some (model_not_found id))
      | some x ↦ ensure_registered env id x begun
    ]

-- EnsureInstance. `none`: the call has not returned.
unfoldable pub ensure_instance : EnsureEnv → Text → Manager → Option (Manager × Option Error)
ensure_instance env id m =
    let target = if is_empty id then m.default_model else id in
    if is_empty target then some (m, none) else ensure_named env target m

abbrev is_current : Text → Option ModelInfo → Bool
is_current id none = false
is_current id (some c) = text_eq c.id id

-- EnsureModel, with how its wait of 50 ms ends.
unfoldable pub ensure_model : Option Error → Text → Manager → Manager × Option Error
ensure_model wait id m = if is_empty id || is_current id m.cur then (m, none) else elim wait [
  | some e ↦ (set_error e (record m { state = loading; err = [] }), some e)
  | none ↦ (
    record m {
      cur = some (record { id = id; name = []; path = []; quant = []; family = [] });
      state = ready;
      err = [];
    },
    none,
  )
]
