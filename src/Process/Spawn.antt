-- ===== src/Process/Spawn.antt =====
-- ensureProcess of internal/manager/adapter_llama_subprocess.go: an existing process is reused if it
-- is healthy, else a new one is started and waited for.
use modeld_go.Common.{
  ℕ, zero, suc, ◌+◌, ◌-◌, ◌*◌, Bool, true, false, ◌&&◌, Option, none, some, List, [], ◌∷◌, ◌++◌,
  Text, codes, is_empty, trim_space, decimal, ℤ, pos, pos_part, ltb, leb, ltb_ℤ, leb_ℤ,
  if◌then◌else◌, length, drop,
}
use modeld_go.Errors.{plain, wrapped, Result, ok, err}
use modeld_go.Events.{int, text, bool}
use modeld_go.Config.{ManagerConfig, second}
use modeld_go.Process.{
  Method, ◌>>=◌, ◌>>◌, return, lock, unlock, get_proc, put_proc, delete_proc, mark_ready, emit,
  stop,
}
use modeld_go.Process.Ports.{pick_port_in_range, pick_free_port}

-- What `cmd.Wait` has said so far: nothing, success, or an error, with the text on stderr.
pub data Exit : Type 0 where
  running : Exit
  clean : Exit
  failed : Text → Text → Exit

-- What the system answers to one call: the status of GET /v1/models on the existing process (`none`
-- if the request fails), the ports that can be listened on, the address given for port 0, the pid or
-- the error of `cmd.Start` for a
-- binary and its arguments, and for each round of the readiness loop the clock, the exit and the
-- status of GET /v1/models.
pub record SpawnEnv : Type 0 where
  pub health : Option ℕ
  pub listen : ℕ → Bool
  pub free_addr : Result Text
  pub start : Text → List Text → Result ℕ
  pub started : ℕ
  pub clock : ℕ → ℕ
  pub exit : ℕ → Exit
  pub probe : ℕ → Option ℕ

-- A response with a status of 200 to 299. (isHealthy, and the probe of the readiness loop.)
unfoldable pub is_healthy : Option ℕ → Bool
is_healthy none = false
is_healthy (some status) = leb 200 status && ltb status 300

abbrev pub host_of : ManagerConfig → Text
host_of cfg =
    let host = trim_space cfg.llama_host in if is_empty host then codes "127.0.0.1" else host

unfoldable pub choose_port : SpawnEnv → ManagerConfig → Result ℤ
unfolding pick_port_in_range pick_free_port
choose_port env cfg =
    if ltb_ℤ (pos 0) cfg.llama_port_start && leb_ℤ cfg.llama_port_start cfg.llama_port_end
    then elim (pick_port_in_range env.listen (pos_part cfg.llama_port_start)
        (pos_part cfg.llama_port_end)) [ ok p ↦ ok (pos p) | err e ↦ err e ]
    else pick_free_port env.free_addr

abbrev flag_if : Text → ℤ → List Text
flag_if name n = if ltb_ℤ (pos 0) n then name ∷ decimal n ∷ [] else []

-- The arguments of llama-server.
unfoldable pub server_args : ManagerConfig → Text → Text → ℤ → List Text
server_args cfg path host port =
    (codes "-m" ∷ path ∷ codes "--host" ∷ host ∷ codes "--port" ∷ decimal port ∷ [])
    ++ (flag_if (codes "-c") cfg.llama_ctx_size
        ++ (flag_if (codes "-ngl") cfg.llama_ngl
            ++ (flag_if (codes "-t") cfg.llama_threads ++ cfg.llama_extra_args)))

abbrev tail_of : Text → Text
tail_of s = if ltb 4096 (length s) then drop (length s - 4096) s else s

abbrev pub ready_timeout : ℕ
ready_timeout = 30 * second

-- A failure in the readiness loop drops the entry, and says so.
unfoldable pub give_up :
    Text → Text → List (Text × modeld_go.Events.Field) → Text → Method (Result Text)
give_up path event fields msg = do
  lock
  delete_proc path
  unlock
  emit event path fields
  return (err (plain msg))

-- The process has answered.
unfoldable pub announce : Text → Text → ℕ → Method (Result Text)
announce path base pid = do
  emit (codes "spawn_ready") path ((codes "pid", int (pos pid)) ∷ (codes "url", text base) ∷ [])
  lock
  mark_ready path
  unlock
  return (ok base)

-- One round: is the deadline past, what `cmd.Wait` has said, does the process answer, the next round.
unfoldable pub after_round :
    Text → Text → ℕ → Bool → Exit → Bool → Method (Result Text) → Method (Result Text)
after_round path base pid true _ _ next =
    give_up path (codes "spawn_timeout") ((codes "pid", int (pos pid)) ∷ [])
      (codes "llama-server not ready in time: " ++ base)
after_round path base pid false (failed why stderr) _ next =
    give_up path (codes "spawn_exit")
      ((codes "pid", int (pos pid)) ∷ (codes "error", text why) ∷ [])
      (codes "llama-server exited early: " ++ (why ++ (codes "; stderr tail: " ++ tail_of stderr)))
after_round path base pid false clean _ next =
    give_up path (codes "spawn_exit")
      ((codes "pid", int (pos pid)) ∷ (codes "before_ready", bool true) ∷ [])
      (codes "llama-server exited before ready: " ++ base)
after_round path base pid false running true next = announce path base pid
after_round path base pid false running false next = next

-- The readiness loop, from round `k` on.
unfoldable pub await_ready : SpawnEnv → Text → Text → ℕ → ℕ → ℕ → Method (Result Text)
unfolding after_round
await_ready env path base pid zero k a = none
await_ready env path base pid (suc fuel) k a =
    after_round path base pid (ltb (env.started + ready_timeout) (env.clock k)) (env.exit k)
      (is_healthy (env.probe k)) (await_ready env path base pid fuel (k + 1)) a

-- The process runs: its entry is made before the wait.
unfoldable pub launch : ℕ → SpawnEnv → Text → Text → ℤ → ℕ → Method (Result Text)
launch fuel env path host port pid = do
  let base = codes "http://" ++ (host ++ (codes ":" ++ decimal port))
  emit (codes "spawn_start") path
      ((codes "pid", int (pos pid)) ∷ (codes "host", text host) ∷ (codes "port", int port) ∷ [])
  lock
  put_proc path (record { base_url = base; ready = false; pid = pid })
  unlock
  await_ready env path base pid fuel 0

-- From "Create process" on.
unfoldable pub create_process : ℕ → SpawnEnv → Text → Method (Result Text)
create_process fuel env path a = elim (choose_port env a.cfg) [
  | err e ↦ some (err e, a)
  | ok port ↦ elim (env.start a.cfg.llama_bin (server_args a.cfg path (host_of a.cfg) port)) [
    | err e ↦ some (err (wrapped (codes "start llama-server") e), a)
    | ok pid ↦ launch fuel env path (host_of a.cfg) port pid a
  ]
]

-- ensureProcess. `mu` is held where Stop is called on a process that does not answer.
unfoldable pub ensure_process : ℕ → SpawnEnv → Text → Method (Result Text)
ensure_process fuel env path = do
  lock
  p ← get_proc path
  elim p [
    | none ↦ do unlock; create_process fuel env path
    | some q ↦ do
      unlock
      elim (is_healthy env.health) [
        | true ↦ elim q.ready [
          | true ↦ return (ok q.base_url)
          | false ↦ do lock; mark_ready path; unlock; return (ok q.base_url)
        ]
        | false ↦ do lock; stop path; unlock; create_process fuel env path
      ]
  ]
