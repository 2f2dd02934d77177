-- ===== src/Startup/CommandLine/Address.antt =====
-- Where the address comes from that the program listens on (cmd/modeld/main.go).
use modeld_go.Common.{
  ◌≡◌, ◌∙◌, refl, ap, sym, true, not, Bool-cases, inl, inr, Option, none, some, [], Text, codes,
  arith, subst, is_empty, if◌then◌else◌,
}
use modeld_go.Errors.{Result, ok, err}
use modeld_go.Manager.{Manager}
use modeld_go.Http.Settings.{Settings}
use modeld_go.Startup.File.{ConfigFile, load}
use modeld_go.Startup.Flags.{Flags, with_text, merge}
use modeld_go.Startup.Main.{MainEnv, OwnFlags, Start, fatal, listening, gate, start, main}
use modeld_go.Startup.Main.Stages.{start_case, main_case}
use modeld_go.Manager.Preflight.{preflight, all_ok}
use modeld_go.Startup.CommandLine.{Given, flag_of, default_addr, command_flags, own_flags}

-- The address that the configuration file has, if there is one and it is read.
abbrev addr_in : Result ConfigFile → Text
addr_in (err e) = []
addr_in (ok cfg) = cfg.addr

abbrev pub config_addr : MainEnv → Text → Text
config_addr env config = addr_in (load env.reader config)

-- The order of the sources: the command line, the configuration file, the environment, the default.
abbrev pub chosen : Option Text → Text → Text → Text
chosen (some a) in_file modeld_addr = a
chosen none in_file modeld_addr =
    if not (is_empty in_file)
    then in_file
    else if not (is_empty modeld_addr)
    then modeld_addr
    else codes ":8080"

-- A program that listens does so at the address.
abbrev pub ListensAt : Text → Start → Type 0
ListensAt a (fatal why) = Unit
ListensAt a (listening l) = l.addr ≡ a

gate-ListensAt :
    (env : MainEnv) (own : OwnFlags) (g : Settings) (f : Flags) (m : Manager)
    → ListensAt f.addr.value (gate env own g f m)
unfolding gate
gate-ListensAt env own g f m = elim (Bool-cases (all_ok (preflight env.checks m))) [
  | inl passes ↦ rw passes refl
  | inr fails ↦ rw fails tt
]

start-ListensAt :
    (env : MainEnv) (own : OwnFlags) (g : Settings) (f : Flags)
    → ListensAt f.addr.value (start env own g f)
start-ListensAt env own g f =
    start_case env own g (ListensAt f.addr.value) (λ why. tt) f (gate-ListensAt env own g f)

without_file :
    (modeld_addr : Text) (g : Option Text)
    → (flag_of (default_addr modeld_addr) g).value ≡ chosen g [] modeld_addr
without_file modeld_addr none = ground arith
without_file modeld_addr (some a) = refl

with_file :
    (t modeld_addr : Text) (g : Option Text)
    → (with_text t (flag_of (default_addr modeld_addr) g)).value ≡ chosen g t modeld_addr
with_file t modeld_addr none = ground arith
with_file t modeld_addr (some a) = ground arith

start_at :
    (env : MainEnv) (own : OwnFlags) (g : Settings) (f : Flags) {a : Text}
    → f.addr.value ≡ a
    → ListensAt a (start env own g f)
start_at env own g f e =
    subst (λ a. ListensAt a (start env own g f)) e (start-ListensAt env own g f)

no_config : (env : MainEnv) (config : Text) → is_empty config ≡ true → config_addr env config ≡ []
unfolding load
no_config env config bare = rw bare refl

module _ (getenv : Text → Text) (given : Given) (env : MainEnv) (g : Settings) where
  abbrev pub address : Text
  address =
      chosen (given.text (codes "addr")) (config_addr env (own_flags given).config)
        (getenv (codes "MODELD_ADDR"))

  abbrev choice : Text → Text
  choice t = chosen (given.text (codes "addr")) t (getenv (codes "MODELD_ADDR"))

  bare_addr :
      is_empty (own_flags given).config ≡ true → (command_flags getenv given).addr.value ≡ address
  unfolding command_flags
  bare_addr bare =
      without_file (getenv (codes "MODELD_ADDR")) (given.text (codes "addr"))
      ∙ ap choice (sym (no_config env (own_flags given).config bare))

  merged_addr :
      (cfg : ConfigFile)
      → load env.reader (own_flags given).config ≡ ok cfg
      → (merge env.parse_duration cfg (command_flags getenv given)).addr.value ≡ address
  unfolding command_flags merge
  merged_addr cfg loaded =
      with_file cfg.addr (getenv (codes "MODELD_ADDR")) (given.text (codes "addr"))
      ∙ ap (λ r. choice (addr_in r)) (sym loaded)

  -- Where the program listens, it is on the address of the command line; without one, on that of the
  -- configuration file; without that, on MODELD_ADDR; and without that, on ":8080".
  pub main-ListensAt : ListensAt address (main env (own_flags given) g (command_flags getenv given))
  main-ListensAt =
      main_case env (own_flags given) g (ListensAt address) (λ why. tt) (command_flags getenv given)
        (
          λ bare. start_at env (own_flags given) g _ (bare_addr bare),
          λ cfg file loaded. start_at env (own_flags given) g _ (merged_addr cfg loaded),
        )
