-- ===== src/Testctl/Ci.antt =====
-- The runs of the workflows by act (internal/testctl/ci.go).
use modeld_go.Common.{
  Bool, true, false, ◌||◌, List, [], ◌∷◌, ◌++◌, Text, codes, has_suffix, if◌then◌else◌,
}
use modeld_go.Errors.{plain, wrapped, Result, ok, err}
use modeld_go.Startup.Registry.{Entry}
use modeld_go.Startup.Paths.{join_path}
use modeld_go.Testctl.{Machine, Script, pure, failing_as, ◌>>=◌, ◌>>◌}
use modeld_go.Testctl.Run.{info, run_cmd_streaming}
use modeld_go.Testctl.Install.{
  look_path, install_host_act, install_host_docker, verify_host_act, verify_host_docker,
}

abbrev pub workflows_dir : Text
workflows_dir = codes ".github/workflows"

unfoldable pub is_workflow : Text → Bool
is_workflow name = has_suffix name (codes ".yml") || has_suffix name (codes ".yaml")

unfoldable pub workflows_of : List Entry → List Text
unfolding is_workflow join_path
workflows_of [] = []
workflows_of (e ∷ entries) =
    let rest = workflows_of entries in
    if e.is_dir
    then rest
    else if is_workflow e.name
    then join_path workflows_dir e.name ∷ rest
    else rest

abbrev pub not_none : List Text → Result (List Text)
not_none [] = err (plain (codes "no workflow files found under .github/workflows/"))
not_none (f ∷ fs) = ok (f ∷ fs)

abbrev listed : Result (List Entry) → Result (List Text)
listed (err e) = err e
listed (ok entries) = not_none (workflows_of entries)

-- The images for the runners of Ubuntu.
abbrev pub runner_args : Bool → List Text
runner_args false = []
runner_args true =
    codes "-P"
    ∷ codes "ubuntu-latest=ghcr.io/catthehacker/ubuntu:act-22.04"
    ∷ codes "-P"
    ∷ codes "ubuntu-22.04=ghcr.io/catthehacker/ubuntu:act-22.04"
    ∷ codes "-P"
    ∷ codes "ubuntu-20.04=ghcr.io/catthehacker/ubuntu:act-20.04"
    ∷ []

-- The arguments of act for one workflow.
abbrev pub act_args : Text → Bool → List Text → List Text
act_args file use_cat extra = codes "-W" ∷ file ∷ (runner_args use_cat ++ extra)

module _ {W : Type 0} (m : Machine W) where
  unfoldable pub list_workflows : Script W (List Text)
  list_workflows s = (s, listed (m.read_dir workflows_dir s.world))

  unfoldable pub run_ci_workflow : Text → Bool → List Text → Script W (Unit {0})
  run_ci_workflow file use_cat extra = do
    failing_as
        (wrapped (
          codes
            "'act' is required. Install via 'testctl install host:act' or your package manager"))
        (look_path m (codes "act"))
    info m (codes "[ci] Running workflow: " ++ file)
    run_cmd_streaming m (codes "act") (act_args file use_cat extra)

  -- The loop over the workflows.
  unfoldable pub run_each : List Text → Bool → List Text → Script W (Unit {0})
  run_each [] use_cat extra = pure tt
  run_each (f ∷ fs) use_cat extra = do run_ci_workflow f use_cat extra; run_each fs use_cat extra

  unfoldable pub run_ci_all : Bool → List Text → Script W (Unit {0})
  run_ci_all use_cat extra = do files ← list_workflows; run_each files use_cat extra

  unfoldable pub run_ci_installers_act : Script W (Unit {0})
  run_ci_installers_act = do install_host_act m; verify_host_act m

  unfoldable pub run_ci_installers_docker : Script W (Unit {0})
  run_ci_installers_docker = do install_host_docker m; verify_host_docker m

  unfoldable pub run_ci_installers_all : Script W (Unit {0})
  run_ci_installers_all = do run_ci_installers_docker; run_ci_installers_act
