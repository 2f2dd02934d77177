-- ===== src/Startup/Main/Stages.antt =====
-- The stages of main in cmd/modeld/main.go: what holds of a fatal end and of the last stage holds of all.
use modeld_go.Common.{◌≡◌, refl, Bool, true, false, if◌then◌else◌, List, Text, is_empty}
use modeld_go.Types.{Model}
use modeld_go.Errors.{Result, ok, err}
use modeld_go.Manager.{Manager}
use modeld_go.Http.Settings.{Settings}
use modeld_go.Startup.File.{ConfigFile, load}
use modeld_go.Startup.Flags.{Flags, merge}
use modeld_go.Startup.Main.{
  MainEnv, OwnFlags, Start, fatal, gate, opened, scanned, start, merged, main,
}

-- The flags with which main goes on: with a configuration file, those that its contents change.
abbrev pub AfterFile : MainEnv → OwnFlags → Flags → (Flags → Type 0) → Type 0
AfterFile env own f Q =
    (is_empty own.config ≡ true → Q f)
    × ((cfg : ConfigFile)
        → is_empty own.config ≡ false
        → load env.reader own.config ≡ ok cfg
        → Q (merge env.parse_duration cfg f))

module _ (env : MainEnv) (own : OwnFlags) (g : Settings) (P : Start → Type 0)
    (dies : (why : Text) → P (fatal why)) where
  opened_case :
      (f : Flags)
      → ((m : Manager) → P (gate env own g f m))
      → (r : Result Manager) → P (opened env own g f r)
  opened_case f each (err e) = dies _
  opened_case f each (ok m) = each m

  scanned_case :
      (f : Flags)
      → ((m : Manager) → P (gate env own g f m))
      → (r : Result (List Model)) → P (scanned env own g f r)
  scanned_case f each (err e) = dies _
  scanned_case f each (ok reg) = opened_case f each _

  pub start_case : (f : Flags) → ((m : Manager) → P (gate env own g f m)) → P (start env own g f)
  unfolding start
  start_case f each = scanned_case f each _

  merged_case :
      (f : Flags) (r : Result ConfigFile)
      → ((cfg : ConfigFile) → r ≡ ok cfg → P (start env own g (merge env.parse_duration cfg f)))
      → P (merged env own g f r)
  merged_case f (err e) each = dies _
  merged_case f (ok cfg) each = each cfg refl

  by_config :
      (f : Flags) (bare : Bool)
      → is_empty own.config ≡ bare
      → AfterFile env own f (λ h. P (start env own g h))
      → P (if bare then start env own g f else merged env own g f (load env.reader own.config))
  by_config f true e (bare, file) = bare e
  by_config f false e (bare, file) =
      merged_case f (load env.reader own.config) (λ cfg loaded. file cfg e loaded)

  pub main_case :
      (f : Flags) → AfterFile env own f (λ h. P (start env own g h)) → P (main env own g f)
  unfolding main
  main_case f = by_config f (is_empty own.config) refl
