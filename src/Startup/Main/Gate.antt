-- ===== src/Startup/Main/Gate.antt =====
-- What holds when the server listens (cmd/modeld/main.go).
use modeld_go.Common.{ℕ, ◌<◌, ◌/◌, ◌≡◌, ◌∙◌, refl, inl, inr, ℤ, pos, some, leb_ℤ, Bool-cases, arith}
use modeld_go.Config.{second}
use modeld_go.Manager.{Manager}
use modeld_go.Manager.Preflight.{preflight, all_ok}
use modeld_go.Manager.Preflight.Soundness.{Runnable, preflight_lem}
use modeld_go.Http.Settings.{Settings, set_max_body_bytes, set_logger, set_base_context}
use modeld_go.Startup.Flags.{Flags}
use modeld_go.Startup.Main.Stages.{start_case, main_case}
use modeld_go.Startup.Main.{
  MainEnv, OwnFlags, Start, fatal, listening, gate, start, main, http_settings, is_zero,
}

-- The manager that is served can run its default model.
abbrev pub Served : MainEnv → Start → Type 0
Served env (fatal why) = Unit
Served env (listening l) = Runnable env.checks l.manager l.manager.adapter

module _ (env : MainEnv) (own : OwnFlags) (g : Settings) where
  gate-Served : (f : Flags) (m : Manager) → Served env (gate env own g f m)
  unfolding gate
  gate-Served f m = elim (Bool-cases (all_ok (preflight env.checks m))) [
    | inl passes ↦ rw passes ((preflight_lem env.checks m).0 passes)
    | inr fails ↦ rw fails tt
  ]

  -- Whatever the flags, the configuration file and the directory say, main either stops with an error
  -- or listens with a manager that can run its default model, as the checks require it.
  pub main-Served : (f : Flags) → Served env (main env own g f)
  main-Served f =
      let served : (h : Flags) → Served env (start env own g h) =
        λ h. start_case env own g (Served env) (λ why. tt) h (gate-Served h) in
      main_case env own g (Served env) (λ why. tt) f (λ bare. served f, λ cfg file loaded. served _)

limit_keeps_time : (n : ℤ) (g : Settings) → (set_max_body_bytes n g).infer_timeout ≡ g.infer_timeout
unfolding set_max_body_bytes
limit_keeps_time n g = elim (Bool-cases (leb_ℤ n (pos 0))) [
  | inl unset ↦ rw unset refl
  | inr set ↦ rw set refl
]

-- A time limit for requests of less than a second is no limit: where none was set before, requests
-- then run without one.
pub http_settings_short :
    (env : MainEnv) (g : Settings) (f : Flags) (n : ℕ)
    → f.infer_timeout.value ≡ pos n
    → n < second
    → g.infer_timeout ≡ pos 0
    → (http_settings env f g).infer_timeout ≡ pos 0
unfolding http_settings set_logger set_base_context
http_settings_short env g f n given short none_before =
    let z : n / second ≡ 0 = omega (arith, short) in
    elim (Bool-cases (is_zero (pos n))) [
      | inl none_asked ↦
          rw (given, none_asked)
            (limit_keeps_time f.max_body_bytes.value
                (set_logger env.logger (set_base_context (some env.base_context) g))
              ∙ none_before)
      | inr asked ↦ rw (given, asked, z) refl
    ]
