-- ===== src/Testctl/Exit.antt =====
-- How testctl ends: the processes that it leaves, and its exit code (cli.go of internal/testctl).
use modeld_go.Common.{Option, List, [], ◌∷◌, Text}
use modeld_go.Errors.{Result, ok, err}
use modeld_go.Testctl.{Machine, Shell}
use modeld_go.Testctl.Keeps.{Keeps}
use modeld_go.Testctl.Quiet.{quiet_rules}
use modeld_go.Testctl.Run.{set_log_level}
use modeld_go.Testctl.Cleanup.{IsIdle, IdleShell, idle_stable, haiku-IsIdle, live-IsIdle}
use modeld_go.Testctl.Web.{Config}
use modeld_go.Testctl.Cli.{
  Action, install_all_cmd, install_nodejs_cmd, install_go_cmd, install_py_cmd, install_llama_cmd,
  install_docker_cmd, install_act_cmd, install_host_all_cmd, verify_docker_cmd, verify_act_cmd,
  verify_all_cmd, test_go_cmd, test_py_cmd, test_haiku_cmd, web_host_cmd, web_haiku_cmd,
  web_auto_cmd, test_all_auto_cmd, ci_all_cmd, ci_one_cmd, ci_installers_all_cmd,
  ci_installers_act_cmd, ci_installers_docker_cmd, group_cmd, web_auto, install_all,
  install_host_all, verify_host_all, test_all_auto, ci_all, ci_one, perform, execute, exit_code,
  main_with_args,
}

module _ {W : Type 0} (m : Machine W) where
  set_log_level-IsIdle : (level : Text) → Keeps IdleShell (set_log_level m level)
  unfolding set_log_level
  set_log_level-IsIdle level = record { at = λ s h. h }

  web_auto-IsIdle : (cfg : Config) → Keeps IdleShell (web_auto m cfg)
  unfolding web_auto
  web_auto-IsIdle cfg = search (quiet_rules, idle_stable, live-IsIdle) depth 12

  perform-IsIdle : (cfg : Config) (action : Action) → Keeps IdleShell (perform m cfg action)
  unfolding perform install_all install_host_all verify_host_all test_all_auto ci_all ci_one
  perform-IsIdle cfg install_all_cmd = search (quiet_rules, idle_stable)
  perform-IsIdle cfg install_nodejs_cmd = search (quiet_rules, idle_stable)
  perform-IsIdle cfg install_go_cmd = search (quiet_rules, idle_stable)
  perform-IsIdle cfg install_py_cmd = search (quiet_rules, idle_stable)
  perform-IsIdle cfg install_llama_cmd = search (quiet_rules, idle_stable)
  perform-IsIdle cfg install_docker_cmd = search (quiet_rules, idle_stable)
  perform-IsIdle cfg install_act_cmd = search (quiet_rules, idle_stable)
  perform-IsIdle cfg install_host_all_cmd = search (quiet_rules, idle_stable)
  perform-IsIdle cfg verify_docker_cmd = search (quiet_rules, idle_stable)
  perform-IsIdle cfg verify_act_cmd = search (quiet_rules, idle_stable)
  perform-IsIdle cfg verify_all_cmd = search (quiet_rules, idle_stable)
  perform-IsIdle cfg test_go_cmd = search (quiet_rules, idle_stable)
  perform-IsIdle cfg test_py_cmd = search (quiet_rules, idle_stable)
  perform-IsIdle cfg test_haiku_cmd = search (quiet_rules, idle_stable)
  perform-IsIdle cfg web_host_cmd = live-IsIdle m cfg
  perform-IsIdle cfg web_haiku_cmd = haiku-IsIdle m cfg
  perform-IsIdle cfg web_auto_cmd = web_auto-IsIdle cfg
  perform-IsIdle cfg test_all_auto_cmd = search (quiet_rules, idle_stable, web_auto-IsIdle)
  perform-IsIdle cfg (ci_all_cmd args) = search (quiet_rules, idle_stable)
  perform-IsIdle cfg (ci_one_cmd wf args) = search (quiet_rules, idle_stable)
  perform-IsIdle cfg ci_installers_all_cmd = search (quiet_rules, idle_stable)
  perform-IsIdle cfg ci_installers_act_cmd = search (quiet_rules, idle_stable)
  perform-IsIdle cfg ci_installers_docker_cmd = search (quiet_rules, idle_stable)
  perform-IsIdle cfg (group_cmd text) = search quiet_rules

  execute-IsIdle :
      (cfg : Config) (r : Result ((Text → Option Text) × Action))
      → Keeps IdleShell (execute m cfg r)
  execute-IsIdle cfg (err e) = search quiet_rules
  execute-IsIdle cfg (ok (flag, action)) =
      search (quiet_rules, set_log_level-IsIdle, perform-IsIdle)

  exit_code-alive :
      (x : Shell W × Result (Unit {0}))
      → IsIdle x.0.alive x.0.procs
      → IsIdle (exit_code m x).0.alive (exit_code m x).0.procs
  exit_code-alive (s, ok _) h = h
  exit_code-alive (s, err e) h = h

-- Whatever the command, the machine and the failures on the way, testctl ends with every process killed
-- that it started, and with an empty table of processes, if it begins so.
pub main-IsIdle :
    {W : Type 0} (m : Machine W) (cobra : List Text → Result ((Text → Option Text) × Action))
    (args : List Text) (s : Shell W)
    → IsIdle s.alive s.procs
    → IsIdle (main_with_args m cobra args s).0.alive (main_with_args m cobra args s).0.procs
unfolding main_with_args
main-IsIdle m cobra [] s h = h
main-IsIdle m cobra (a ∷ args) s h =
    exit_code-alive m _ ((execute-IsIdle m _ (cobra (a ∷ args))).at s h)
