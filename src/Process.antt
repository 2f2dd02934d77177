-- ===== src/Process.antt =====
-- internal/manager/adapter_llama_subprocess.go: one llama-server process for each model path.
-- A method runs alone on the adapter's state, with the mutex `mu` as the field `locked`. `none` means
-- that the call has not returned: it waits for a mutex that somebody holds, and goes on only when
-- somebody else unlocks it, or it needs more rounds of the readiness loop than the fuel allows.
pub mod Ports
pub mod Spawn
mod Table
pub mod Stopping
pub mod Readiness
use modeld_go.Common.{
  ◌≡◌, refl, ℕ, zero, suc, ◌+◌, ◌-◌, ◌*◌, ◌≡◌, refl, Bool, true, false, ◌&&◌, ◌||◌, Option, none,
  some, List, [], ◌∷◌, ◌++◌, Text, codes, text_eq, text_dec, is_empty, trim_space, decimal, ℤ, pos,
  negsuc, pos_part, ltb, leb, ltb_ℤ, leb_ℤ, if◌then◌else◌,
}
use modeld_go.Errors.{Error, plain, wrapped, Result, ok, err}
use modeld_go.Events.{Event, Publisher, noop, publish, int, text, bool}
use modeld_go.Config.{ManagerConfig, second}

-- procInfo. The handle `cmd` is the pid.
pub record ProcInfo : Type 0 where
  pub base_url : Text
  pub ready : Bool
  pub pid : ℕ

-- llamaSubprocessAdapter, with the processes of the system that Stop has dealt with: `terminated` holds
-- the pids for which Stop has sent SIGTERM, or killed the process, and for which Wait has returned.
pub record SubprocessAdapter : Type 0 where
  pub cfg : ManagerConfig
  pub locked : Bool
  pub procs : List (Text × ProcInfo)
  pub terminated : List ℕ
  pub publisher : Publisher

-- The map `procs`.
unfoldable pub lookup : Text → List (Text × ProcInfo) → Option ProcInfo
lookup k [] = none
lookup k ((j, p) ∷ m) = if text_eq j k then some p else lookup k m

unfoldable pub insert : Text → ProcInfo → List (Text × ProcInfo) → List (Text × ProcInfo)
insert k p [] = (k, p) ∷ []
insert k p ((j, q) ∷ m) = if text_eq j k then (k, p) ∷ m else (j, q) ∷ insert k p m

unfoldable pub erase : Text → List (Text × ProcInfo) → List (Text × ProcInfo)
erase k [] = []
erase k ((j, q) ∷ m) = let rest = erase k m in if text_eq j k then rest else (j, q) ∷ rest

abbrev pub Method : Type 0 → Type 0
Method A = SubprocessAdapter → Option (A × SubprocessAdapter)

infixl 5 ◌>>=◌ ◌>>◌
abbrev pub ◌>>=◌ : {A B : Type 0} → Method A → (A → Method B) → Method B
◌>>=◌ m f a = elim (m a) [ none ↦ none | some (x, b) ↦ f x b ]

abbrev pub ◌>>◌ : {B : Type 0} → Method (Unit {0}) → Method B → Method B
m >> k = m >>= λ _. k

abbrev pub return : {A : Type 0} → A → Method A
return x a = some (x, a)

pub >>=-some :
    {A B : Type 0} (m : Method A) (f : A → Method B) (a : SubprocessAdapter) {x : A}
    {b : SubprocessAdapter}
    → m a ≡ some (x, b)
    → (m >>= f) a ≡ f x b
>>=-some m f a e = rw (e, ◌>>=◌)

-- `a.mu.Lock()`: a Go mutex is not re-entrant, and a call on a mutex that is held waits.
abbrev lock : Method (Unit {0})
lock a = elim a.locked [ true ↦ none | false ↦ some (tt, record a { locked = true }) ]

abbrev unlock : Method (Unit {0})
unlock a = some (tt, record a { locked = false })

abbrev get_proc : Text → Method (Option ProcInfo)
get_proc path a = some (lookup path a.procs, a)

abbrev put_proc : Text → ProcInfo → Method (Unit {0})
put_proc path p a = some (tt, record a { procs = insert path p a.procs })

abbrev delete_proc : Text → Method (Unit {0})
delete_proc path a = some (tt, record a { procs = erase path a.procs })

-- `if p := a.procs[path]; p != nil { p.ready = true }`
abbrev mark_ready : Text → Method (Unit {0})
mark_ready path a = elim (lookup path a.procs) [
  | none ↦ some (tt, a)
  | some p ↦ some (tt, record a { procs = insert path (record p { ready = true }) a.procs })
]

abbrev emit : Text → Text → List (Text × modeld_go.Events.Field) → Method (Unit {0})
emit name path fields a = some (
  tt,
  record a {
    publisher = publish a.publisher (record { name = name; model_id = path; fields = fields });
  },
)

-- The middle of Stop: SIGTERM, and when the process has not ended after two seconds, Kill; either way
-- Stop goes on only when Wait has returned.
abbrev terminate : ProcInfo → Method (Unit {0})
terminate p a = some (tt, record a { terminated = p.pid ∷ a.terminated })

-- Stop
unfoldable pub stop : Text → Method (Unit {0})
stop path = do
  lock
  p ← get_proc path
  unlock
  elim p [
    | none ↦ return tt
    | some q ↦ do terminate q; lock; delete_proc path; unlock; emit (codes "spawn_stop") path []
  ]

-- StopAll stops every path that has an entry when it is called.
abbrev paths : List (Text × ProcInfo) → List Text
paths [] = []
paths ((k, p) ∷ m) = k ∷ paths m

unfoldable pub stop_each : List Text → Method (Unit {0})
stop_each [] = return tt
stop_each (k ∷ ks) = stop k >> stop_each ks

abbrev get_paths : Method (List Text)
get_paths a = some (paths a.procs, a)

unfoldable pub stop_all : Method (Unit {0})
stop_all = do lock; ks ← get_paths; unlock; stop_each ks

-- NewLlamaSubprocessAdapter
unfoldable pub new_subprocess_adapter : ManagerConfig → SubprocessAdapter
new_subprocess_adapter cfg = record {
  cfg = cfg;
  locked = false;
  procs = [];
  terminated = [];
  publisher = noop;
}

-- getProcInfo
unfoldable pub get_proc_info : Text → Method (Option ProcInfo)
get_proc_info path = do lock; p ← get_proc path; unlock; return p

-- setPublisher
unfoldable pub set_publisher : Option Publisher → SubprocessAdapter → SubprocessAdapter
set_publisher none a = record a { publisher = noop }
set_publisher (some p) a = record a { publisher = p }
