-- ===== src/Testctl/Run.antt =====
-- The runner of commands (internal/testctl/executil.go), the log (logenv.go) and the table of started
-- processes (process.go).
use modeld_go.Common.{
  ℕ, ◌+◌, true, false, Option, none, some, List, [], ◌∷◌, ◌++◌, Text, codes, text_eq, to_lower, ltb,
  ◌==◌, ◌||◌, if◌then◌else◌, filter_if, not,
}
use modeld_go.Errors.{Error, Result, ok, err}
use modeld_go.Testctl.{
  Cmd, Machine, ran, started, killed, printed, Shell, Script, or_error, pure, ◌>>=◌, ◌>>◌,
}

-- logLevel
abbrev pub level_debug : ℕ
level_debug = 0

abbrev pub level_info : ℕ
level_info = 1

abbrev pub level_warn : ℕ
level_warn = 2

abbrev pub level_error : ℕ
level_error = 3

pub level_of : Text → ℕ
level_of level =
    let l = to_lower level in
    if text_eq l (codes "debug")
    then level_debug
    else if text_eq l (codes "info")
    then level_info
    else if text_eq l (codes "warn") || text_eq l (codes "warning")
    then level_warn
    else if text_eq l (codes "error") || text_eq l (codes "err")
    then level_error
    else level_info

module _ {W : Type 0} (m : Machine W) where
  -- SetLogLevel
  unfoldable pub set_log_level : Text → Script W (Unit {0})
  set_log_level level s = (record s { level = level_of level }, ok tt)

  unfoldable pub logf : Text → ℕ → Text → Script W (Unit {0})
  logf lvl min text s = if ltb min s.level then (s, ok tt) else (
    record s {
      trace =
          printed (codes "[" ++ (m.stamp s.world ++ (codes "] " ++ (lvl ++ (codes " " ++ text)))))
          ∷ s.trace;
    },
    ok tt,
  )

  unfoldable pub info : Text → Script W (Unit {0})
  info = logf (codes "INFO") level_info

  unfoldable pub warn : Text → Script W (Unit {0})
  warn = logf (codes "WARN") level_warn

  -- RunCmd
  unfoldable pub run_cmd : Cmd → Script W (Unit {0})
  run_cmd c s =
      let (w, e) = m.run c s.world in
      (record s { world = w; trace = ran c e ∷ s.trace }, or_error e)

  unfoldable pub run_cmd_verbose : Text → List Text → Script W (Unit {0})
  run_cmd_verbose name args =
      run_cmd (record { path = name; args = args; env = []; dir = []; stream = false })

  unfoldable pub run_cmd_streaming : Text → List Text → Script W (Unit {0})
  run_cmd_streaming name args =
      run_cmd (record { path = name; args = args; env = []; dir = []; stream = true })

  unfoldable pub run_env_cmd_streaming : List (Text × Text) → Text → List Text → Script W (Unit {0})
  run_env_cmd_streaming env name args =
      run_cmd (record { path = name; args = args; env = env; dir = []; stream = false })

  abbrev pub begun : Cmd → Shell W → W × Option Error → Shell W × Result ℕ
  begun c s (w, some e) = (record s { world = w }, err e)
  begun c s (w, none) = (
    record s {
      world = w;
      next = s.next + 1;
      alive = s.next ∷ s.alive;
      trace = started s.next c ∷ s.trace;
    },
    ok s.next,
  )

  -- cmd.Start
  unfoldable pub start : Cmd → Script W ℕ
  start c s = begun c s (m.start c s.world)

  -- ProcManager.Add
  unfoldable pub track_process : ℕ → Script W (Unit {0})
  track_process p s = (record s { procs = s.procs ++ p ∷ [] }, ok tt)

  -- Process.Kill
  unfoldable pub kill : ℕ → Shell W → Shell W
  kill p s = record s {
    world = m.kill p s.world;
    alive = filter_if (λ q. not (q == p)) s.alive;
    trace = killed p ∷ s.trace;
  }

  unfoldable pub kill_each : List ℕ → Shell W → Shell W
  kill_each [] s = s
  kill_each (p ∷ ps) s = kill_each ps (kill p s)

  -- killProcesses: KillAll of the default manager
  unfoldable pub kill_processes : Shell W → Shell W
  kill_processes s = kill_each s.procs (record s { procs = [] })

  -- Start and TrackProcess
  unfoldable pub start_tracked : Cmd → Script W ℕ
  start_tracked c = do p ← start c; track_process p; pure p
