-- ===== src/Testctl/Quiet.antt =====
-- The scripts of internal/testctl that start no process in the background.
use modeld_go.Common.{ℕ, zero, suc, Bool, Option, none, some, List, [], ◌∷◌, Text, ℤ}
use modeld_go.Errors.{Result, ok, err}
use modeld_go.Testctl.{Machine, Shell, failing_as}
use modeld_go.Testctl.Keeps.{
  Keeps, IsStable, Keeps-bind, Keeps-if, Keeps-pure, Keeps-fail, Keeps-fetch, Keeps-wait_second,
  script_rules, Keeps-maybe_sudo, Keeps-reported, Keeps-prefer_or_free,
}
use modeld_go.Testctl.Ports.{fetch, wait_second, is_code, wait_rounds, ended, wait_http}
use modeld_go.Testctl.Install.{
  install_go, install_py, enable_pnpm, install_nodejs, docker_package, install_host_docker, aur_act,
  arch_act, debian_act, download_act, install_host_act, verify_host_docker, verify_host_act,
  in_group, apt_installed,
}
use modeld_go.Testctl.Install.Llama.{
  host_compiler, llama_sources, llama_build, llama_built, install_llama_cuda, fallback,
}
use modeld_go.Testctl.Ci.{
  list_workflows, run_ci_workflow, run_each, run_ci_all, run_ci_installers_act,
  run_ci_installers_docker, run_ci_installers_all,
}
use modeld_go.Testctl.Web.{
  run_go_tests, ensure_pytest, run_py_tests, run_py_test_haiku, build_web_with, run_cypress,
  default_model, web_ports,
}

pub ruleset sudo_rules = (script_rules, Keeps-maybe_sudo, Keeps-reported, Keeps-prefer_or_free)

module _ {W : Type 0} {P : Shell W → Type 0} (stable : IsStable P) (m : Machine W) where
  pub Keeps-wait_rounds :
      (fuel : ℕ) (url : Text) (want : ℤ) (deadline : ℕ)
      → Keeps P (wait_rounds m fuel url want deadline)
  unfolding wait_rounds
  Keeps-wait_rounds zero url want deadline = search script_rules
  Keeps-wait_rounds (suc fuel) url want deadline =
      Keeps-bind (fetch m url) _ (Keeps-fetch stable m url) (λ code.
        Keeps-if (is_code want code) _ _ (Keeps-pure _) (
          Keeps-bind (wait_second m deadline) _ (Keeps-wait_second stable m deadline)
            (λ done. Keeps-if done _ _ (Keeps-fail _) (Keeps-wait_rounds fuel url want deadline))))

  pub Keeps-ended : (url : Text) (want : ℤ) (o : Option (Unit {0})) → Keeps P (ended m url want o)
  Keeps-ended url want none = search script_rules
  Keeps-ended url want (some _) = search script_rules

  pub Keeps-wait_http :
      (url : Text) (want : ℤ) (timeout : ℕ) → Keeps P (wait_http m url want timeout)
  unfolding wait_http
  Keeps-wait_http url want timeout = search (script_rules, Keeps-wait_rounds, Keeps-ended) depth 12

  pub Keeps-install_go : Keeps P (install_go m)
  unfolding install_go
  Keeps-install_go = search sudo_rules depth 12

  pub Keeps-install_py : Keeps P (install_py m)
  unfolding install_py
  Keeps-install_py = search sudo_rules depth 12

  pub Keeps-enable_pnpm : Keeps P (enable_pnpm m)
  unfolding enable_pnpm
  Keeps-enable_pnpm = search sudo_rules depth 12

  pub Keeps-install_nodejs : Keeps P (install_nodejs m)
  unfolding install_nodejs
  Keeps-install_nodejs = search (sudo_rules, Keeps-enable_pnpm) depth 14

  pub Keeps-docker_package : Keeps P (docker_package m)
  unfolding docker_package
  Keeps-docker_package = search sudo_rules depth 14

  pub Keeps-in_group : (user : Text) (r : Result (Unit {0})) → Keeps P (in_group m user r)
  Keeps-in_group user (ok _) = search script_rules
  Keeps-in_group user (err e) = search script_rules

  pub Keeps-install_host_docker : Keeps P (install_host_docker m)
  unfolding install_host_docker
  Keeps-install_host_docker = search (sudo_rules, Keeps-docker_package, Keeps-in_group) depth 14

  pub Keeps-aur_act : (helper : Text) → Keeps P (aur_act m helper)
  unfolding aur_act
  Keeps-aur_act helper = search sudo_rules depth 12

  pub Keeps-arch_act : Keeps P (arch_act m)
  unfolding arch_act
  Keeps-arch_act = search (sudo_rules, Keeps-aur_act) depth 12

  pub Keeps-apt_installed : (r : Result (Unit {0})) → Keeps P (apt_installed m r)
  Keeps-apt_installed (ok _) = search script_rules
  Keeps-apt_installed (err e) = search script_rules

  pub Keeps-debian_act : Keeps P (debian_act m)
  unfolding debian_act
  Keeps-debian_act = search (sudo_rules, Keeps-apt_installed) depth 12

  pub Keeps-download_act : Keeps P (download_act m)
  unfolding download_act
  Keeps-download_act = search sudo_rules depth 14

  pub Keeps-install_host_act : Keeps P (install_host_act m)
  unfolding install_host_act
  Keeps-install_host_act =
      search (sudo_rules, Keeps-arch_act, Keeps-debian_act, Keeps-download_act) depth 14

  pub Keeps-verify_docker : Keeps P (verify_host_docker m)
  unfolding verify_host_docker
  Keeps-verify_docker = search sudo_rules depth 14

  pub Keeps-verify_act : Keeps P (verify_host_act m)
  unfolding verify_host_act
  Keeps-verify_act = search sudo_rules depth 12

  pub Keeps-fallback : (r : Result (Unit {0})) → Keeps P (fallback m r)
  Keeps-fallback (ok _) = search script_rules
  Keeps-fallback (err e) = search script_rules depth 12

  pub Keeps-host_compiler : Keeps P (host_compiler m)
  unfolding host_compiler
  Keeps-host_compiler = search (sudo_rules, Keeps-fallback) depth 12

  pub Keeps-llama_sources : (src dir : Text) → Keeps P (llama_sources m src dir)
  unfolding llama_sources
  Keeps-llama_sources src dir = search sudo_rules depth 12

  pub Keeps-llama_build : (cxx dir build : Text) → Keeps P (llama_build m cxx dir build)
  unfolding llama_build
  Keeps-llama_build cxx dir build = search sudo_rules depth 12

  pub Keeps-llama_built : (dir so : Text) → Keeps P (llama_built m dir so)
  unfolding llama_built
  Keeps-llama_built dir so = search sudo_rules depth 14

  pub Keeps-install_llama : Keeps P (install_llama_cuda m)
  unfolding install_llama_cuda
  Keeps-install_llama =
      search
        (sudo_rules, Keeps-host_compiler, Keeps-llama_sources, Keeps-llama_build, Keeps-llama_built)
        depth 16

  pub Keeps-list_workflows : Keeps P (list_workflows m)
  unfolding list_workflows
  Keeps-list_workflows = record { at = λ s h. h }

  pub Keeps-run_ci_workflow :
      (file : Text) (cat : Bool) (extra : List Text) → Keeps P (run_ci_workflow m file cat extra)
  unfolding run_ci_workflow
  Keeps-run_ci_workflow file cat extra = search script_rules depth 12

  pub Keeps-run_each :
      (files : List Text) (cat : Bool) (extra : List Text) → Keeps P (run_each m files cat extra)
  unfolding run_each
  Keeps-run_each [] cat extra = search script_rules
  Keeps-run_each (f ∷ fs) cat extra =
      Keeps-bind (run_ci_workflow m f cat extra) (λ _. run_each m fs cat extra)
        (Keeps-run_ci_workflow f cat extra) (λ _. Keeps-run_each fs cat extra)

  pub Keeps-run_ci_all : (cat : Bool) (extra : List Text) → Keeps P (run_ci_all m cat extra)
  unfolding run_ci_all
  Keeps-run_ci_all cat extra = search (script_rules, Keeps-list_workflows, Keeps-run_each)

  pub Keeps-installers_act : Keeps P (run_ci_installers_act m)
  unfolding run_ci_installers_act
  Keeps-installers_act = search (script_rules, Keeps-install_host_act, Keeps-verify_act)

  pub Keeps-installers_docker : Keeps P (run_ci_installers_docker m)
  unfolding run_ci_installers_docker
  Keeps-installers_docker = search (script_rules, Keeps-install_host_docker, Keeps-verify_docker)

  pub Keeps-installers_all : Keeps P (run_ci_installers_all m)
  unfolding run_ci_installers_all
  Keeps-installers_all = search (script_rules, Keeps-installers_act, Keeps-installers_docker)

  pub Keeps-go_tests : Keeps P (run_go_tests m)
  unfolding run_go_tests
  Keeps-go_tests = search script_rules

  pub Keeps-ensure_pytest : Keeps P (ensure_pytest m)
  unfolding ensure_pytest
  Keeps-ensure_pytest = search (script_rules, Keeps-install_py) depth 12

  pub Keeps-py_tests : Keeps P (run_py_tests m)
  unfolding run_py_tests
  Keeps-py_tests = search (script_rules, Keeps-ensure_pytest) depth 12

  pub Keeps-py_haiku : Keeps P (run_py_test_haiku m)
  unfolding run_py_test_haiku
  Keeps-py_haiku = search (script_rules, Keeps-ensure_pytest) depth 12

  pub Keeps-build_web : (env : List (Text × Text)) → Keeps P (build_web_with m env)
  unfolding build_web_with
  Keeps-build_web env = search script_rules

  pub Keeps-cypress :
      (env : List (Text × Text)) (args : List Text) → Keeps P (run_cypress m env args)
  unfolding run_cypress
  Keeps-cypress env [] = search script_rules
  Keeps-cypress env (a ∷ args) = search script_rules

  pub Keeps-default_model : (dir : Text) → Keeps P (default_model m dir)
  unfolding default_model failing_as
  Keeps-default_model dir = record { at = λ s h. h }

  pub Keeps-web_ports : (port : ℤ) → Keeps P (web_ports m port)
  unfolding web_ports
  Keeps-web_ports port = search sudo_rules depth 12

pub ruleset quiet_rules = (
  sudo_rules, Keeps-install_go, Keeps-install_py, Keeps-install_nodejs, Keeps-install_host_docker,
  Keeps-install_host_act, Keeps-verify_docker, Keeps-verify_act, Keeps-install_llama,
  Keeps-run_ci_workflow, Keeps-run_ci_all, Keeps-installers_act, Keeps-installers_docker,
  Keeps-installers_all, Keeps-go_tests, Keeps-py_tests, Keeps-py_haiku,
)

pub ruleset web_rules = (
  sudo_rules, Keeps-wait_http, Keeps-build_web, Keeps-cypress, Keeps-default_model, Keeps-web_ports,
)
