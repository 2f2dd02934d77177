-- ===== src/Tests/Shells.antt =====
-- Scripts of testctl, on a machine whose state is its clock.
use modeld_go.Common.{
  ℕ, ◌+◌, ◌*◌, ◌≤◌, ◌≡◌, ◌≢◌, refl, true, false, none, some, Option, List, [], ◌∷◌, ◌++◌, Text,
  codes, pos, leb, arith, if◌then◌else◌, has_suffix,
}
use modeld_go.Errors.{Result, ok, err, plain}
use modeld_go.Startup.Registry.{Entry, models_of}
use modeld_go.Testctl.{Machine, Shell, file, ◌>>=◌, ◌>>?◌}
use modeld_go.Testctl.Run.{info, logf, run_cmd, run_cmd_verbose}
use modeld_go.Testctl.Ports.{second, wait_http, ensure_ports}
use modeld_go.Testctl.Install.{
  succeeded, install_host_docker, install_host_act, verify_host_docker, verify_host_act, look_path,
  run_maybe_sudo,
}
use modeld_go.Testctl.Files.{models_dir, first_gguf, has_host_models}
use modeld_go.Testctl.Ci.{
  workflows_of, run_ci_all, run_ci_installers_all, run_ci_installers_docker, run_ci_installers_act,
}
use modeld_go.Testctl.Cli.{Action, web_haiku_cmd, main_with_args}
use modeld_go.Testctl.Cleanup.{IsIdle}
use modeld_go.Testctl.Exit.{main-IsIdle}
use modeld_go.Testctl.Waiting.{Waited, wait_http-Waited}
use modeld_go.Testctl.Secured.{Secured, ensure_ports-Secured}
use modeld_go.Testctl.Workflows.{AllRun, run_ci_all-AllRun}
use modeld_go.Testctl.Models.{is_found, first_id, host_models_lem}
use modeld_go.Testctl.Verified.{DockerChecked, ActChecked, installers-Checked}

abbrev entries : List Entry
entries =
    record { name = codes "a.yml"; is_dir = false }
    ∷ record { name = codes "b.gguf"; is_dir = false }
    ∷ []

-- Every command succeeds and takes no time; port 1 is busy, and a server answers after two seconds.
abbrev machine : Machine ℕ
machine = record {
  getenv = λ key w. codes "42x";
  user_home = λ w. codes "/root";
  read_dir = λ path w. ok entries;
  read_file = λ path w. err (plain (codes "no such file"));
  stat = λ path w. file;
  make_dirs = λ path w. (w, none);
  remove_file = λ path w. w;
  look_path = λ name w. ok (codes "/usr/bin/" ++ name);
  is_root = λ w. true;
  os_name = codes "linux";
  arch_name = codes "amd64";
  temp_dir = λ w. codes "/tmp";
  run = λ c w. (w, none);
  start = λ c w. (w, none);
  kill = λ p w. w;
  dial = λ p w. (w, false);
  listen = λ w. (w, ok (pos 40000));
  get = λ url w. (w, if leb (2 * second) w then some (pos 200) else none);
  now = λ w. w;
  wait = λ deadline w. (w + second, leb deadline w);
  sleep = λ d w. w + d;
  stamp = λ w. codes "now";
}

abbrev idle_shell : Shell ℕ
idle_shell = record { world = 0; level = 1; next = 0; procs = []; alive = []; trace = [] }

abbrev cobra : List Text → Result ((Text → Option Text) × Action)
cobra args = ok (λ flag. none, web_haiku_cmd)

abbrev haiku_args : List Text
haiku_args = codes "test" ∷ codes "web" ∷ codes "haiku" ∷ []

main-IsIdle_example :
    IsIdle
      (main_with_args machine cobra haiku_args idle_shell).0.alive
      (main_with_args machine cobra haiku_args idle_shell).0.procs
main-IsIdle_example = main-IsIdle machine cobra haiku_args idle_shell (refl, refl)

forward : (url : Text) (w : ℕ) → machine.now w ≤ machine.now (machine.get url w).0
forward url w = omega arith

ticks :
    (deadline w : ℕ)
    → (machine.wait deadline w).1 ≡ false
    → machine.now w + second ≤ machine.now (machine.wait deadline w).0
ticks deadline w h = omega arith

over : (deadline w : ℕ) → deadline ≤ machine.now w → (machine.wait deadline w).1 ≡ true
over deadline w h = ground arith

done :
    (deadline w : ℕ)
    → (machine.wait deadline w).1 ≡ true
    → deadline ≤ machine.now (machine.wait deadline w).0
done deadline w h = ground arith

wait_http-Waited_example :
    Waited machine
      (codes "http://h")
      (pos 200)
      (machine.now idle_shell.world + 5 * second)
      idle_shell
      (wait_http machine (codes "http://h") (pos 200) (5 * second) idle_shell)
wait_http-Waited_example =
    wait_http-Waited machine forward ticks over done (codes "http://h") (pos 200) (5 * second)
      idle_shell

ensure_ports-Secured_example :
    Secured (pos 80 ∷ pos 81 ∷ []) (ensure_ports machine (pos 80 ∷ pos 81 ∷ []) true idle_shell)
ensure_ports-Secured_example = ensure_ports-Secured machine (pos 80 ∷ pos 81 ∷ []) true idle_shell

some_workflow : workflows_of entries ≢ []
unfolding workflows_of has_suffix
some_workflow e = cc

run_ci_all-AllRun_example :
    AllRun machine true
      (codes "-j" ∷ [])
      (workflows_of entries)
      idle_shell
      (run_ci_all machine true (codes "-j" ∷ []) idle_shell)
run_ci_all-AllRun_example =
    run_ci_all-AllRun machine true (codes "-j" ∷ []) entries idle_shell refl some_workflow

host_models_lem_example :
    (has_host_models machine 0 ≡ is_found (first_gguf machine (models_dir machine 0) 0))
    × (first_gguf machine (models_dir machine 0) 0
        ≡ first_id (models_dir machine 0) (models_of (codes "/models") entries))
host_models_lem_example = host_models_lem machine (codes "/models") entries 0 refl

all_succeed : succeeded (run_ci_installers_all machine idle_shell).1 ≡ true
unfolding run_ci_installers_all ◌>>=◌ run_ci_installers_docker install_host_docker ◌>>?◌ look_path
    info logf run_maybe_sudo run_cmd_verbose run_cmd verify_host_docker run_ci_installers_act
    install_host_act verify_host_act
all_succeed = refl

installers-Checked_example :
    DockerChecked (run_ci_installers_all machine idle_shell).0.trace
    × ActChecked (run_ci_installers_all machine idle_shell).0.trace
installers-Checked_example = installers-Checked machine idle_shell all_succeed
