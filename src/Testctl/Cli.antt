-- ===== src/Testctl/Cli.antt =====
-- The commands of testctl: cli.go, cobra_root.go and actions.go of internal/testctl, and cmd/testctl. Which
-- command a line of arguments names is the work of cobra, a parameter.
use modeld_go.Common.{
  ℕ, Bool, true, ◌&&◌, not, Option, none, some, List, [], ◌∷◌, ◌++◌, Text, codes, text_eq, is_empty,
  has_prefix, ℤ, pos, if◌then◌else◌, leb_ℤ,
}
use modeld_go.Errors.{plain, message, Result, ok, err}
use modeld_go.Testctl.{Machine, Shell, Script, printed, pure, fail, gets, ◌>>=◌, ◌>>◌}
use modeld_go.Testctl.Env.{env_int, env_str, sscanf_int}
use modeld_go.Testctl.Os.{contains}
use modeld_go.Testctl.Run.{info, set_log_level}
use modeld_go.Testctl.Files.{has_host_models}
use modeld_go.Testctl.Install.{
  install_nodejs, install_go, install_py, install_host_docker, install_host_act, verify_host_docker,
  verify_host_act,
}
use modeld_go.Testctl.Install.Llama.{install_llama_cuda}
use modeld_go.Testctl.Ci.{
  run_ci_all, run_ci_workflow, run_ci_installers_all, run_ci_installers_act,
  run_ci_installers_docker,
}
use modeld_go.Testctl.Web.{
  Config, run_go_tests, run_py_tests, run_py_test_haiku, test_web_live_host, test_web_haiku_host,
}

-- The value of a flag, if the flag is defined: what a number among its characters overrides, and what a
-- text that is not empty does.
abbrev or_port : ℤ → Option ℤ → ℤ
or_port def none = def
or_port def (some n) = if leb_ℤ n (pos 0) && leb_ℤ (pos 0) n then def else n

abbrev pub port_of : ℤ → Option Text → ℤ
unfolding sscanf_int
port_of def none = def
port_of def (some v) = or_port def (sscanf_int v)

abbrev pub level_name : Text → Option Text → Text
level_name def none = def
level_name def (some v) = if is_empty v then def else v

-- ParseConfigWith, for the values that the flags have after the parsing.
unfoldable pub parse_config_with : {W : Type 0} → Machine W → (Text → Option Text) → W → Config
unfolding env_int env_str sscanf_int
parse_config_with m flag w = record {
  web_port = port_of (env_int m (codes "WEB_PORT") (pos 5173) w) (flag (codes "web-port"));
  log_lvl =
      level_name (env_str m (codes "TESTCTL_LOG_LEVEL") (codes "info") w)
        (flag (codes "log-level"));
}

-- The commands that do something.
pub data Action : Type 0 where
  install_all_cmd : Action
  install_nodejs_cmd : Action
  install_go_cmd : Action
  install_py_cmd : Action
  install_llama_cmd : Action
  install_docker_cmd : Action
  install_act_cmd : Action
  install_host_all_cmd : Action
  verify_docker_cmd : Action
  verify_act_cmd : Action
  verify_all_cmd : Action
  test_go_cmd : Action
  test_py_cmd : Action
  test_haiku_cmd : Action
  web_host_cmd : Action
  web_haiku_cmd : Action
  web_auto_cmd : Action
  test_all_auto_cmd : Action
  ci_all_cmd : List Text → Action
  ci_one_cmd : Text → List Text → Action
  ci_installers_all_cmd : Action
  ci_installers_act_cmd : Action
  ci_installers_docker_cmd : Action
  -- A group without a subcommand, with what it requires.
  group_cmd : Text → Action

-- The arguments before the first `--`, and those after it.
unfoldable pub split_extra : List Text → List Text × List Text
split_extra [] = ([], [])
split_extra (t ∷ ts) =
    let (tail, extra) = split_extra ts in
    if text_eq t (codes "--") then ([], ts) else (t ∷ tail, extra)

-- Whether the runner images are to be used: unless the first argument says no.
abbrev pub use_cat : List Text → Bool
use_cat [] = true
use_cat (t ∷ ts) = not (text_eq t (codes "runner:default"))

unfoldable pub workflow_path : Text → Text
unfolding contains has_prefix
workflow_path wf =
    if not (contains wf (codes "/")) && not (has_prefix wf (codes ".github/workflows/"))
    then codes ".github/workflows/" ++ wf
    else wf

module _ {W : Type 0} (m : Machine W) where
  -- The web tests, if there are models.
  unfoldable pub web_auto : Config → Script W (Unit {0})
  web_auto cfg = do
    present ← gets (has_host_models m)
    if present
        then pure tt
        else fail
            (plain (codes "no host models found; live UI tests require models in $HOME/models/llm"))
    info m (codes "[testctl] Detected host models, running host UI suite")
    test_web_live_host m cfg

  unfoldable pub install_all : Script W (Unit {0})
  install_all = do install_nodejs m; install_go m; install_py m

  unfoldable pub install_host_all : Script W (Unit {0})
  install_host_all = do install_host_docker m; install_host_act m

  unfoldable pub verify_host_all : Script W (Unit {0})
  verify_host_all = do verify_host_docker m; verify_host_act m

  unfoldable pub test_all_auto : Config → Script W (Unit {0})
  test_all_auto cfg = do run_go_tests m; run_py_tests m; web_auto cfg

  unfoldable pub ci_all : List Text → Script W (Unit {0})
  ci_all args = let (tail, extra) = split_extra args in run_ci_all m (use_cat tail) extra

  unfoldable pub ci_one : Text → List Text → Script W (Unit {0})
  ci_one wf args =
      let (tail, extra) = split_extra args in
      run_ci_workflow m (workflow_path wf) (use_cat tail) extra

  -- RunE of each command.
  unfoldable pub perform : Config → Action → Script W (Unit {0})
  perform cfg install_all_cmd = install_all
  perform cfg install_nodejs_cmd = install_nodejs m
  perform cfg install_go_cmd = install_go m
  perform cfg install_py_cmd = install_py m
  perform cfg install_llama_cmd = install_llama_cuda m
  perform cfg install_docker_cmd = install_host_docker m
  perform cfg install_act_cmd = install_host_act m
  perform cfg install_host_all_cmd = install_host_all
  perform cfg verify_docker_cmd = verify_host_docker m
  perform cfg verify_act_cmd = verify_host_act m
  perform cfg verify_all_cmd = verify_host_all
  perform cfg test_go_cmd = run_go_tests m
  perform cfg test_py_cmd = run_py_tests m
  perform cfg test_haiku_cmd = run_py_test_haiku m
  perform cfg web_host_cmd = test_web_live_host m cfg
  perform cfg web_haiku_cmd = test_web_haiku_host m cfg
  perform cfg web_auto_cmd = web_auto cfg
  perform cfg test_all_auto_cmd = test_all_auto cfg
  perform cfg (ci_all_cmd args) = ci_all args
  perform cfg (ci_one_cmd wf args) = ci_one wf args
  perform cfg ci_installers_all_cmd = run_ci_installers_all m
  perform cfg ci_installers_act_cmd = run_ci_installers_act m
  perform cfg ci_installers_docker_cmd = run_ci_installers_docker m
  perform cfg (group_cmd text) = fail (plain text)

  -- PersistentPreRun, for the values of the flags.
  abbrev pub pre_run : Config → (Text → Option Text) → Config
  pre_run cfg flag = record {
    web_port = port_of cfg.web_port (flag (codes "web-port"));
    log_lvl = level_name cfg.log_lvl (flag (codes "log-level"));
  }

  -- What cobra makes of the arguments: the command with the values of the flags, or an error.
  abbrev pub execute : Config → Result ((Text → Option Text) × Action) → Script W (Unit {0})
  execute cfg (err e) = fail e
  execute cfg (ok (flag, action)) = do
    let set = pre_run cfg flag
    set_log_level m set.log_lvl
    perform set action

  abbrev pub exit_code : Shell W × Result (Unit {0}) → Shell W × ℕ
  exit_code (s, ok _) = (s, 0)
  exit_code (s, err e) = (record s { trace = printed (message e) ∷ s.trace }, 1)

  -- MainWithArgs
  unfoldable pub main_with_args :
      (List Text → Result ((Text → Option Text) × Action)) → List Text → Shell W → Shell W × ℕ
  main_with_args cobra [] s = (s, 2)
  main_with_args cobra (a ∷ args) s =
      let cfg : Config = record {
        web_port = env_int m (codes "WEB_PORT") (pos 5173) s.world;
        log_lvl = env_str m (codes "TESTCTL_LOG_LEVEL") (codes "info") s.world;
      } in
      exit_code (execute cfg (cobra (a ∷ args)) s)
