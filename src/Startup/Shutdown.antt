-- ===== src/Startup/Shutdown.antt =====
-- cmd/modeld/main.go, from the listening to the end of the program.
pub mod Ended
use modeld_go.Common.{
  ℕ, ◌*◌, Bool, true, false, Option, none, some, List, [], ◌∷◌, ◌++◌, Text, codes, is_empty, ℤ,
  if◌then◌else◌,
}
use modeld_go.Errors.{Error, message}
use modeld_go.Config.{second}
use modeld_go.Manager.{Manager}
use modeld_go.Manager.Setup.{stop_all_instances}
use modeld_go.Http.Settings.{Settings}
use modeld_go.Startup.Flags.{Flags}
use modeld_go.Startup.Main.{MainEnv, OwnFlags, Launch, Start, fatal, listening, main}

-- http.Server, with its limits in nanoseconds
pub record HttpServer : Type 0 where
  pub addr : Text
  pub read_header_timeout : ℕ
  pub read_timeout : ℕ
  pub write_timeout : ℕ
  pub idle_timeout : ℕ

unfoldable pub http_server : Text → HttpServer
http_server addr = record {
  addr = addr;
  read_header_timeout = 5 * second;
  read_timeout = 10 * second;
  write_timeout = 30 * second;
  idle_timeout = 60 * second;
}

-- The line of the log: the address, the directory and the configuration file.
unfoldable pub listening_line : Text → Text → Text → Text
listening_line addr models_dir config =
    let start = codes "modeld listening on " ++ addr ++ codes " (models dir: " ++ models_dir in
    if is_empty config
    then start ++ codes ")"
    else start ++ codes ", config: " ++ config ++ codes ")"

-- How ListenAndServe returns: with http.ErrServerClosed, or with another error.
pub data Listened : Type 0 where
  server_closed : Listened
  listen_error : Error → Listened

-- What happens while the program listens: ListenAndServe returns, or a signal comes, with the manager
-- as it is then. After ErrServerClosed only a signal is waited for.
pub data Occasion : Type 0 where
  signalled : Manager → Occasion
  listened : Listened → Option Manager → Occasion

-- The program when a signal has come: the manager, whether the base context is cancelled, the time limit
-- with which Shutdown was called, and the log.
pub record Program : Type 0 where
  pub manager : Manager
  pub base_done : Bool
  pub shutdown_limit : Option ℤ
  pub log : List Text

-- log.Fatalf, or the end of main.
pub data End : Type 0 where
  exited : Text → End
  returned : Program → End

abbrev pub log_shutdown : Option Error → Program → Program
log_shutdown none p = p
log_shutdown (some e) p = record p {
  log = p.log ++ (codes "graceful shutdown error: " ++ message e) ∷ [];
}

abbrev pub stopped : (ℤ → Option Error) → ℤ → Program → Option Manager → Option Program
stopped shutdown limit p none = none
stopped shutdown limit p (some m) = some (
    log_shutdown (shutdown limit)
      (record p { manager = m; base_done = true; shutdown_limit = some limit }))

-- What follows a signal; `shutdown` is srv.Shutdown, with a context of that time limit. `none` means
-- that StopAllInstances has not returned: it waits for a mutex that is held.
unfoldable pub shut_down : (ℤ → Option Error) → ℤ → Program → Option Program
unfolding stop_all_instances
shut_down shutdown limit p = stopped shutdown limit p (stop_all_instances p.manager)

abbrev pub ended : Option Program → Option End
ended none = none
ended (some p) = some (returned p)

abbrev pub listening_program : Text → Manager → Program
listening_program line m = record {
  manager = m;
  base_done = false;
  shutdown_limit = none;
  log = line ∷ [];
}

module _ (shutdown : ℤ → Option Error) (limit : ℤ) where
  abbrev on_signal : Text → Manager → Option End
  on_signal line m = ended (shut_down shutdown limit (listening_program line m))

  abbrev after_close : Text → Option Manager → Option End
  after_close line none = none
  after_close line (some m) = on_signal line m

  -- The goroutine that listens, and the wait for a signal
  unfoldable pub wait_for_end : Text → Occasion → Option End
  unfolding shut_down
  wait_for_end line (signalled m) = on_signal line m
  wait_for_end line (listened server_closed later) = after_close line later
  wait_for_end line (listened (listen_error e) later) =
      some (exited (codes "server error: " ++ message e))

  -- The whole of main; `meanwhile` is what the requests and the system do while it listens.
  unfoldable pub run :
      MainEnv → OwnFlags → Settings → (Launch → HttpServer → Occasion) → Flags → Option End
  unfolding main wait_for_end listening_line http_server
  run env own g meanwhile f = elim (main env own g f) [
    | fatal why ↦ some (exited why)
    | listening l ↦
        wait_for_end (listening_line l.addr l.models_dir own.config)
          (meanwhile l (http_server l.addr))
  ]
