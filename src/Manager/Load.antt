-- ===== src/Manager/Load.antt =====
-- The loading of an instance, which EnsureInstance of internal/manager/instance_ensure.go ends with: the
-- loading state, the runtime, the warm-up, and the commit.
use modeld_go.Common.{
  ◌==◌, ℕ, ◌+◌, Bool, true, false, Option, none, some, List, [], ◌∷◌, Text, codes, ℤ, pos,
  if◌then◌else◌, ◌+ℤ◌,
}
use modeld_go.Types.{Model}
use modeld_go.Errors.{Error, Result, ok, err, message}
use modeld_go.Events.{int, text}
use modeld_go.Process.{ProcInfo, SubprocessAdapter, get_proc_info}
use modeld_go.Process.Spawn.{SpawnEnv, ensure_process}
use modeld_go.Manager.{Manager, Instance, ready, loading, errored, Adapter, subprocess, announce}
use modeld_go.Manager.Instances.{find, put, update_at}

-- What the system answers to one call: the clock at the places where it is read, the size of a file
-- (os.Stat), the spawning of a process with a bound on its rounds, the port of a base URL (url.Parse,
-- net.SplitHostPort and Atoi, `none` if one of them fails), and how the warm-up of 50 ms ends: by
-- itself, or by the context, with its error.
pub record EnsureEnv : Type 0 where
  pub fast_time : ℕ
  pub stat : Text → Option ℤ
  pub evict_start : ℕ
  pub evict_clock : ℕ → ℕ
  pub load_time : ℕ
  pub spawn : SpawnEnv
  pub spawn_rounds : ℕ
  pub url_port : Text → Option ℤ
  pub warmup : Option Error
  pub commit_time : ℕ
  pub dur_ms : ℤ

-- The manager and one instance go to the loading state; the answer is the address of the instance,
-- and whether it was added.
unfoldable pub begin_load : ℕ → Text → ℕ → Manager → Manager × ℕ × Bool
begin_load now id required m = elim (find id m.instances) [
  | none ↦ (
    record m {
      state = loading;
      err = [];
      instances =
          put
            (record {
              ref = m.next_ref;
              id = id;
              state = loading;
              last_used = now;
              est_vram_mb = required;
              gen_len = 0;
              queue_len = 0;
              queue_cap = m.max_queue_depth;
              port = pos 0;
              pid = 0;
            })
            m.instances;
      next_ref = m.next_ref + 1;
    },
    m.next_ref,
    true,
  )
  | some i ↦ (
    record m {
      state = loading;
      err = [];
      instances =
          update_at i.ref
            (λ j. record j { state = loading; est_vram_mb = required; last_used = now })
            m.instances;
    },
    i.ref,
    false,
  )
]

-- `m.state = StateError; m.err = err.Error()`
unfoldable pub set_error : Error → Manager → Manager
set_error e m = record m { state = errored; err = message e }

-- The port and the pid of a process are noted on the instance, if the address can be read.
unfoldable pub note_process : (Text → Option ℤ) → ℕ → Option ProcInfo → Manager → Manager
note_process url_port ref none m = m
note_process url_port ref (some p) m = elim (url_port p.base_url) [
  | none ↦ m
  | some n ↦ record m {
    instances = update_at ref (λ j. record j { port = n; pid = p.pid }) m.instances;
  }
]

abbrev pub of_ref : ℕ → List Instance → Option Instance
of_ref r [] = none
of_ref r (i ∷ is) = if i.ref == r then some i else of_ref r is

-- The event that a process is ready, with the pid and the port of the instance.
unfoldable pub announce_process : Text → ℕ → Manager → Manager
unfolding announce
announce_process id ref m = elim (of_ref ref m.instances) [
  | none ↦ announce (codes "ensure_spawn_ready") id [] m
  | some i ↦
      announce (codes "ensure_spawn_ready") id
        ((codes "pid", int (pos i.pid)) ∷ (codes "port", int i.port) ∷ []) m
]

-- The record of a spawned process is read and noted. (The lookup takes the adapter's mutex.)
unfoldable pub after_info :
    EnsureEnv
    → Text
    → ℕ
    → Manager
    → Option (Option ProcInfo × SubprocessAdapter)
    → Option (Manager × Option Error)
after_info env id ref m none = none
after_info env id ref m (some (p, c)) = some (
  announce_process id ref (note_process env.url_port ref p (record m { adapter = subprocess c })),
  none,
)

unfoldable pub after_spawn :
    EnsureEnv
    → Text
    → Model
    → ℕ
    → Manager
    → Option (Result Text × SubprocessAdapter)
    → Option (Manager × Option Error)
unfolding set_error announce
after_spawn env id x ref m none = none
after_spawn env id x ref m (some (err e, b)) = some (
  announce (codes "ensure_spawn_error") id ((codes "error", text (message e)) ∷ [])
      (set_error e (record m { adapter = subprocess b })),
  some e,
)
after_spawn env id x ref m (some (ok url, b)) = after_info env id ref m (get_proc_info x.path b)

-- A runtime is spawned if the adapter does that. The answer is the error of the spawning, if any.
unfoldable pub spawn_runtime :
    EnsureEnv → Text → Model → ℕ → Adapter → Manager → Option (Manager × Option Error)
spawn_runtime env id x ref (subprocess a) m =
    after_spawn env id x ref m (ensure_process env.spawn_rounds env.spawn x.path a)
spawn_runtime env id x ref ad m = some (m, none)

-- After the warm-up the instance is committed as ready.
unfoldable pub commit : ℕ → Text → ℕ → ℕ → Bool → Manager → Manager
commit now id required ref added m = record m {
  used_est_mb = if added then m.used_est_mb +ℤ pos required else m.used_est_mb;
  instances = update_at ref (λ j. record j { state = ready; last_used = now }) m.instances;
  cur = some (record { id = id; name = []; path = []; quant = []; family = [] });
  state = ready;
  err = [];
}

-- The warm-up, and what follows it.
unfoldable pub warm_up :
    EnsureEnv → Text → ℕ → ℕ → Bool → Manager → Option Error → Manager × Option Error
unfolding set_error announce commit
warm_up env id required ref added m (some e) = (set_error e m, some e)
warm_up env id required ref added m none = (
  announce (codes "ensure_ready") id ((codes "dur_ms", int env.dur_ms) ∷ [])
      (commit env.commit_time id required ref added m),
  none,
)

unfoldable pub after_runtime :
    EnsureEnv
    → Text
    → ℕ
    → ℕ
    → Bool
    → Option (Manager × Option Error)
    → Option (Manager × Option Error)
after_runtime env id required ref added none = none
after_runtime env id required ref added (some (n, some e)) = some (n, some e)
after_runtime env id required ref added (some (n, none)) =
    some (warm_up env id required ref added n env.warmup)

-- From the load on.
unfoldable pub load : EnsureEnv → Text → Model → ℕ → Manager → Option (Manager × Option Error)
load env id x required m =
    let (loaded, ref, added) = begin_load env.load_time id required m in
    after_runtime env id required ref added (spawn_runtime env id x ref loaded.adapter loaded)
