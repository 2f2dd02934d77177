-- ===== src/Testctl/Workflows.antt =====
-- Which workflows a run of all of them runs (internal/testctl/ci.go).
use mathlib.Core.Path.{subst}
use modeld_go.Common.{
  ℕ, ◌≡◌, ◌≢◌, ◌⊎◌, ◌∙◌, inl, inr, refl, sym, ap, Bool, Option, none, some, List, [], ◌∷◌, ◌++◌,
  Text, codes, Bool-cases, ltb,
}
use modeld_go.Errors.{Error, wrapped, Result, ok, err, Result-cases}
use modeld_go.Startup.Registry.{Entry}
use modeld_go.Testctl.{Cmd, Machine, ran, Shell, or_error, pure, failing_as, ◌>>=◌, ◌>>◌}
use modeld_go.Testctl.Run.{level_info, logf, info, run_cmd, run_cmd_streaming}
use modeld_go.Testctl.Steps.{after_log}
use modeld_go.Testctl.Install.{look_path}
use modeld_go.Testctl.Ci.{
  workflows_dir, workflows_of, not_none, act_args, list_workflows, run_ci_workflow, run_each,
  run_ci_all,
}
use modeld_go.Testctl.ActRuns.{runs, act_args-arguments, act_cmd, acted}

not_none-cases : (fs : List Text) → (fs ≡ []) ⊎ (not_none fs ≡ ok fs)
not_none-cases [] = inl refl
not_none-cases (f ∷ fs) = inr refl

-- The search for act fails in this world, and the error says so.
abbrev pub ActMissing : {W : Type 0} → Machine W → W → Error → Type 0
ActMissing m w e =
    (why : Error) × (m.look_path (codes "act") w ≡ err why)
    × (e
        ≡ wrapped
            (codes
              "'act' is required. Install via 'testctl install host:act' or your package manager")
            why)

-- How a run of act for a file ends with an error, after some commands: act is missing, and nothing more
-- has been run, or it has been run with this error.
abbrev pub FailedAt :
    {W : Type 0}
    → Machine W
    → Bool
    → List Text
    → Text
    → List (Cmd × Option Error)
    → Shell W
    → Error
    → Type 0
FailedAt m cat extra f before s e =
    ((runs s.trace ≡ before) × ActMissing m s.world e)
    ⊎ (runs s.trace ≡ (act_cmd cat extra f, some e) ∷ before)

-- Of some workflows, all have been run, or those before one that failed: act is missing, or has failed.
abbrev pub AllRun :
    {W : Type 0}
    → Machine W
    → Bool
    → List Text
    → List Text
    → Shell W
    → Shell W × Result (Unit {0})
    → Type 0
AllRun m cat extra files s (s', ok _) = runs s'.trace ≡ acted cat extra files (runs s.trace)
AllRun m cat extra files s (s', err e) =
    (before : List Text) × (f : Text) × (after : List Text) × (files ≡ before ++ f ∷ after)
    × FailedAt m cat extra f (acted cat extra before (runs s.trace)) s' e

abbrev OneRun :
    {W : Type 0}
    → Machine W
    → Bool
    → List Text
    → Text
    → Shell W
    → Shell W × Result (Unit {0})
    → Type 0
OneRun m cat extra f s (s', ok _) = runs s'.trace ≡ (act_cmd cat extra f, none) ∷ runs s.trace
OneRun m cat extra f s (s', err e) = FailedAt m cat extra f (runs s.trace) s' e

both :
    {W : Type 0} (m : Machine W) (cat : Bool) (extra : List Text) (f : Text) (fs : List Text)
    (s t : Shell W)
    → runs t.trace ≡ (act_cmd cat extra f, none) ∷ runs s.trace
    → (r : Shell W × Result (Unit {0})) → AllRun m cat extra fs t r
    → AllRun m cat extra (f ∷ fs) s r
both m cat extra f fs s t one (u, ok _) all = all ∙ ap (acted cat extra fs) one
both m cat extra f fs s t one (u, err e) (before, g, after, split, inl (h, missing)) = (
  f ∷ before,
  g,
  after,
  ap (λ l. f ∷ l) split,
  inl (h ∙ ap (acted cat extra before) one, missing),
)
both m cat extra f fs s t one (u, err e) (before, g, after, split, inr h) = (
  f ∷ before,
  g,
  after,
  ap (λ l. f ∷ l) split,
  inr (h ∙ ap (λ l. (act_cmd cat extra g, some e) ∷ acted cat extra before l) one),
)

module _ {W : Type 0} (m : Machine W) (cat : Bool) (extra : List Text) where
  runs-logf :
      (lvl : Text) (min : ℕ) (text : Text) (s : Shell W)
      → runs (logf m lvl min text s).0.trace ≡ runs s.trace
  unfolding logf
  runs-logf lvl min text s = elim (Bool-cases (ltb min s.level)) [ inl h ↦ rw h | inr h ↦ rw h ]

  ended-OneRun :
      (f : Text) (s t : Shell W) (w : W) (e : Option Error)
      → runs t.trace ≡ runs s.trace
      → OneRun m cat extra f s
          (record t { world = w; trace = ran (act_cmd cat extra f) e ∷ t.trace }, or_error e)
  ended-OneRun f s t w none same = ap (λ l. (act_cmd cat extra f, none) ∷ l) same
  ended-OneRun f s t w (some x) same = inr (ap (λ l. (act_cmd cat extra f, some x) ∷ l) same)

  -- What follows the search for act.
  logged-OneRun :
      (f text : Text) (s : Shell W)
      → OneRun m cat extra f s
          ((info m text >> run_cmd_streaming m (codes "act") (act_args f cat extra)) s)
  unfolding info run_cmd_streaming run_cmd
  logged-OneRun f text s =
      subst
        (λ args. OneRun m cat extra f s ((info m text >> run_cmd_streaming m (codes "act") args) s))
        (sym (act_args-arguments cat extra f))
        (rw (after_log m) (
          ended-OneRun f s (logf m (codes "INFO") level_info text s).0
            (m.run (act_cmd cat extra f) (logf m (codes "INFO") level_info text s).0.world).0
            (m.run (act_cmd cat extra f) (logf m (codes "INFO") level_info text s).0.world).1
            (runs-logf (codes "INFO") level_info text s)))

  found_lem :
      (f path : Text) (s : Shell W)
      → m.look_path (codes "act") s.world ≡ ok path
      → run_ci_workflow m f cat extra s
        ≡ (info m (codes "[ci] Running workflow: " ++ f)
              >> run_cmd_streaming m (codes "act") (act_args f cat extra))
            s
  unfolding run_ci_workflow look_path failing_as ◌>>=◌
  found_lem f path s found = rw found refl

  gone_lem :
      (f : Text) (e : Error) (s : Shell W)
      → m.look_path (codes "act") s.world ≡ err e
      → run_ci_workflow m f cat extra s ≡ (
        s,
        err (
            wrapped
              (codes
                "'act' is required. Install via 'testctl install host:act' or your package manager")
              e),
      )
  unfolding run_ci_workflow look_path failing_as ◌>>=◌
  gone_lem f e s gone = rw gone refl

  workflow-OneRun :
      (f : Text) (s : Shell W) → OneRun m cat extra f s (run_ci_workflow m f cat extra s)
  workflow-OneRun f s = elim (Result-cases (m.look_path (codes "act") s.world)) [
    | inl (path, found) ↦
        subst (OneRun m cat extra f s) (sym (found_lem f path s found))
          (logged-OneRun f (codes "[ci] Running workflow: " ++ f) s)
    | inr (e, gone) ↦
        subst (OneRun m cat extra f s) (sym (gone_lem f e s gone)) (inl (refl, (e, gone, refl)))
  ]

  after_one :
      (f : Text) (fs : List Text) (s : Shell W) (r : Shell W × Result (Unit {0}))
      → OneRun m cat extra f s r
      → ((t : Shell W) → AllRun m cat extra fs t (run_each m fs cat extra t))
      → AllRun m cat extra (f ∷ fs) s (((λ _. r) >>= λ _. run_each m fs cat extra) s)
  unfolding ◌>>=◌
  after_one f fs s (t, err e) one rest = ([], f, fs, refl, one)
  after_one f fs s (t, ok _) one rest =
      both m cat extra f fs s t one (run_each m fs cat extra t) (rest t)

  each-AllRun : (fs : List Text) (s : Shell W) → AllRun m cat extra fs s (run_each m fs cat extra s)
  unfolding run_each ◌>>=◌ pure
  each-AllRun [] s = refl
  each-AllRun (f ∷ fs) s =
      after_one f fs s (run_ci_workflow m f cat extra s) (workflow-OneRun f s) (each-AllRun fs)

-- `testctl test ci all` with a directory of workflows: with no error, act has been run for each of them, in the
-- order of the directory, with the images that were asked for and the extra arguments, and nothing else has
-- been run; with an error, act has been run for those before one,
-- each without an error, and for that one act is missing or its run has failed with this error.
pub run_ci_all-AllRun :
    {W : Type 0} (m : Machine W) (cat : Bool) (extra : List Text) (entries : List Entry)
    (s : Shell W)
    → m.read_dir workflows_dir s.world ≡ ok entries
    → workflows_of entries ≢ []
    → AllRun m cat extra (workflows_of entries) s (run_ci_all m cat extra s)
unfolding run_ci_all list_workflows ◌>>=◌
run_ci_all-AllRun m cat extra entries s here some_file =
    elim (not_none-cases (workflows_of entries)) [
      | inl none_given ↦ absurd (some_file none_given)
      | inr given ↦ rw here (rw given (each-AllRun m cat extra (workflows_of entries) s))
    ]
