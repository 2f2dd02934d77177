-- ===== src/Testctl.antt =====
-- internal/testctl: the tool that installs what the tests need and runs them. A function of it is a
-- script, which acts on a machine and may fail; what the machine does is a parameter.
-- The runner of commands (executil.go), the levels of the log (logenv.go), and the table of started
-- processes (process.go).
pub mod Run
pub mod Env
pub mod Os
pub mod Files
pub mod Ports
pub mod Install
pub mod Ci
pub mod Web
pub mod Cli
pub mod Keeps
pub mod Quiet
pub mod Cleanup
pub mod Exit
pub mod Waiting
pub mod Secured
pub mod Steps
pub mod ActRuns
pub mod Workflows
pub mod Models
pub mod Arguments
pub mod Verified
use modeld_go.Common.{
  ℕ, ◌+◌, Bool, true, false, Option, none, some, List, [], ◌∷◌, ◌++◌, Text, codes, text_eq,
  is_empty, to_lower, ℤ, ltb, ◌==◌, ◌||◌, if◌then◌else◌, filter_if, not,
}
use modeld_go.Errors.{Error, Result, ok, err}
use modeld_go.Startup.Registry.{Entry}

-- Cmd
pub record Cmd : Type 0 where
  pub path : Text
  pub args : List Text
  pub env : List (Text × Text)
  pub dir : Text
  pub stream : Bool

-- What os.Stat says of a path.
pub data Stat : Type 0 where
  missing : Stat
  unreadable : Stat
  file : Stat
  directory : Stat

-- The machine, with its state `W`. `run` is a command that is waited for, `start` one that is not.
-- `dial` is a connection to a port of 127.0.0.1, `listen` the port that the kernel gives for `:0`, `get`
-- the status of a response, and `wait` one second of a wait that a deadline may end (`true`).
pub record Machine (W : Type 0) : Type 0 where
  pub getenv : Text → W → Text
  pub user_home : W → Text
  pub read_dir : Text → W → Result (List Entry)
  pub read_file : Text → W → Result Text
  pub stat : Text → W → Stat
  pub make_dirs : Text → W → W × Option Error
  pub remove_file : Text → W → W
  pub look_path : Text → W → Result Text
  pub is_root : W → Bool
  pub os_name : Text
  pub arch_name : Text
  pub temp_dir : W → Text
  pub run : Cmd → W → W × Option Error
  pub start : Cmd → W → W × Option Error
  pub kill : ℕ → W → W
  pub dial : ℤ → W → W × Bool
  pub listen : W → W × Result ℤ
  pub get : Text → W → W × Option ℤ
  pub now : W → ℕ
  pub wait : ℕ → W → W × Bool
  pub sleep : ℕ → W → W
  pub stamp : W → Text

-- What a script has done, for the theorems.
pub data Event : Type 0 where
  ran : Cmd → Option Error → Event
  started : ℕ → Cmd → Event
  killed : ℕ → Event
  dialed : ℤ → Bool → Event
  fetched : Text → Option ℤ → Event
  printed : Text → Event

-- The package's variables beside the machine: `currentLevel`, and the processes of `defaultProcManager`.
-- `next` names the next process. `alive` are those that were started and not killed, and `trace` what has
-- been done, the last first.
pub record Shell (W : Type 0) : Type 0 where
  pub world : W
  pub level : ℕ
  pub next : ℕ
  pub procs : List ℕ
  pub alive : List ℕ
  pub trace : List Event

abbrev pub Script : Type 0 → Type 0 → Type 0
Script W A = Shell W → Shell W × Result A

-- The error of a step of the machine, if it had one.
abbrev pub or_error : Option Error → Result (Unit {0})
or_error none = ok tt
or_error (some e) = err e

abbrev rewrap : {A : Type 0} → (Error → Error) → Result A → Result A
rewrap f (ok a) = ok a
rewrap f (err e) = err (f e)

module _ {W A : Type 0} where
  pub pure : A → Script W A
  pure a s = (s, ok a)

  pub fail : Error → Script W A
  fail e s = (s, err e)

  pub gets : (W → A) → Script W A
  gets f s = (s, ok (f s.world))

  -- A result that was computed.
  pub lift : Result A → Script W A
  lift r s = (s, r)

  -- A deferred call.
  pub deferred : (Shell W → Shell W) → Script W A → Script W A
  deferred cleanup m s = let (s', r) = m s in (cleanup s', r)

  -- An error that is returned in another form.
  pub failing_as : (Error → Error) → Script W A → Script W A
  failing_as f m s = let (s', r) = m s in (s', rewrap f r)

module _ {W A B : Type 0} where
  abbrev continue : (A → Script W B) → Shell W × Result A → Shell W × Result B
  continue f (s, ok a) = f a s
  continue f (s, err e) = (s, err e)

  infixl 10 ◌>>=◌ ◌>>◌
  unfoldable pub ◌>>=◌ : Script W A → (A → Script W B) → Script W B
  unfolding pure fail gets lift deferred failing_as
  ◌>>=◌ m f s = continue f (m s)

  abbrev pub ◌>>◌ : Script W A → Script W B → Script W B
  m >> n = m >>= λ _. n

  abbrev tried : (Result A → Script W B) → Shell W × Result A → Shell W × Result B
  tried f (s, r) = f r s

  infixl 10 ◌>>?◌
  -- `if err := …; err != nil { … } else { … }`
  unfoldable pub ◌>>?◌ : Script W A → (Result A → Script W B) → Script W B
  unfolding pure fail gets lift deferred failing_as
  ◌>>?◌ m f s = tried f (m s)
