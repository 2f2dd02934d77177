-- ===== src/Testctl/Install.antt =====
-- The installers and their verification: install.go, install_nodejs.go, install_host.go and verify.go of
-- internal/testctl.
pub mod Llama
use modeld_go.Common.{
  Bool, true, false, Option, none, some, List, [], ◌∷◌, ◌++◌, Text, codes, text_eq, is_empty,
  if◌then◌else◌,
}
use modeld_go.Errors.{Error, plain, wrapped, message, Result, ok, err}
use modeld_go.Startup.Paths.{join_path}
use modeld_go.Testctl.{
  Machine, Stat, missing, unreadable, file, directory, Shell, Script, or_error, pure, fail, gets,
  failing_as, ◌>>=◌, ◌>>◌, ◌>>?◌,
}
use modeld_go.Testctl.Run.{info, run_cmd_verbose}
use modeld_go.Testctl.Os.{is_arch_like, is_debian_like}

abbrev pub succeeded : {A : Type 0} → Result A → Bool
succeeded (ok a) = true
succeeded (err e) = false

abbrev pub is_missing : Stat → Bool
is_missing missing = true
is_missing unreadable = false
is_missing file = false
is_missing directory = false

-- tests/e2e_py
abbrev pub py_dir : Text
py_dir = codes "tests/e2e_py"

abbrev pub venv : Text
venv = codes "tests/e2e_py/.venv"

module _ {W : Type 0} (m : Machine W) where
  -- exec.LookPath
  unfoldable pub look_path : Text → Script W Text
  look_path name s = (s, m.look_path name s.world)

  -- os.Remove, whose error is ignored
  unfoldable pub remove_file : Text → Script W (Unit {0})
  remove_file path s = (record s { world = m.remove_file path s.world }, ok tt)

  -- os.MkdirAll
  unfoldable pub make_dirs : Text → Script W (Unit {0})
  make_dirs path s = let (w, e) = m.make_dirs path s.world in (record s { world = w }, or_error e)

  unfoldable pub run_maybe_sudo : Text → List Text → Script W (Unit {0})
  run_maybe_sudo name args = do
    root ← gets m.is_root
    if root
        then run_cmd_verbose m name args
        else (look_path (codes "sudo") >>? λ r.
            if succeeded r
            then run_cmd_verbose m (codes "sudo") (name ∷ args)
            else run_cmd_verbose m name args)

  unfoldable pub install_go : Script W (Unit {0})
  install_go = do
    info m (codes "Downloading Go modules...")
    run_cmd_verbose m (codes "go") (codes "mod" ∷ codes "download" ∷ [])

  unfoldable pub install_py : Script W (Unit {0})
  install_py = do
    info m (codes "Installing Python dependencies...")
    found ← gets (m.stat venv)
    if is_missing found then make_dirs venv else pure tt
    run_cmd_verbose m (codes "python3") (codes "-m" ∷ codes "venv" ∷ venv ∷ [])
    run_cmd_verbose m (codes "tests/e2e_py/.venv/bin/pip")
        (codes "install" ∷ codes "-r" ∷ codes "tests/e2e_py/requirements.txt" ∷ [])
    info m (codes "Python dependencies installed (venv: " ++ (venv ++ codes ")."))

  -- The attempts to enable pnpm by corepack, whose failures are ignored.
  unfoldable pub enable_pnpm : Script W (Unit {0})
  enable_pnpm = look_path (codes "pnpm") >>? λ pnpm.
      if succeeded pnpm
      then pure tt
      else (look_path (codes "corepack") >>? λ corepack.
          if succeeded corepack
          then (run_cmd_verbose m (codes "corepack") (codes "enable" ∷ []) >>? λ _.
              run_cmd_verbose m (codes "corepack")
                (codes "prepare" ∷ codes "pnpm@9.7.1" ∷ codes "--activate" ∷ [])
              >>? λ _. pure tt)
          else pure tt)

  unfoldable pub install_nodejs : Script W (Unit {0})
  install_nodejs = do
    info m (codes "Installing Node.js dependencies...")
    enable_pnpm
    failing_as
        (λ _. plain (codes "pnpm is required; install via 'npm i -g pnpm' or enable corepack"))
        (look_path (codes "pnpm"))
    run_cmd_verbose m (codes "pnpm") (codes "install" ∷ codes "--frozen-lockfile" ∷ [])
    run_cmd_verbose m (codes "pnpm")
        (codes "-C" ∷ codes "web" ∷ codes "install" ∷ codes "--frozen-lockfile" ∷ [])
    info m (codes "Node.js dependencies installed.")

  -- A failure that is only logged.
  unfoldable pub reported : Text → Result (Unit {0}) → Script W (Unit {0})
  reported text (ok _) = pure tt
  reported text (err e) = info m (text ++ message e)

  -- The package of Docker, for the kinds of Linux that are known.
  unfoldable pub docker_package : Script W (Unit {0})
  docker_package = do
    arch ← gets (is_arch_like m)
    debian ← gets (is_debian_like m)
    if arch
        then (do
          info m (codes "[host] Installing Docker (Arch Linux)...")
          failing_as (wrapped (codes "failed to install docker via pacman")) (
              run_maybe_sudo (codes "pacman")
                (codes "-S" ∷ codes "--needed" ∷ codes "--noconfirm" ∷ codes "docker" ∷ [])))
        else (if debian
            then (do
              info m (codes "[host] Installing Docker (Debian/Ubuntu)...")
              run_maybe_sudo (codes "apt-get") (codes "update" ∷ [])
                  >>? reported (codes "[host] apt-get update failed: ")
              failing_as (wrapped (codes "failed to install docker via apt-get")) (
                  run_maybe_sudo (codes "apt-get")
                    (codes "install" ∷ codes "-y" ∷ codes "docker.io" ∷ [])))
            else fail (
                plain (
                  codes "host:docker installer currently supports Arch and Debian/Ubuntu; on "
                  ++ (m.os_name ++ codes " please install Docker manually"))))

  abbrev pub in_group : Text → Result (Unit {0}) → Script W (Unit {0})
  in_group user (ok _) = info m (
      codes "[host] Added user '"
      ++ (user
          ++ codes
              "' to docker group. You may need to re-login or run 'newgrp docker' for it to take effect."))
  in_group user (err e) =
      info m (codes "[host] Could not add user to docker group automatically: " ++ message e)

  unfoldable pub install_host_docker : Script W (Unit {0})
  install_host_docker = do
    look_path (codes "docker") >>? λ r.
        if succeeded r
        then info m (codes "[host] docker already installed; ensuring service and group")
        else docker_package
    failing_as (wrapped (codes "failed to enable/start docker service"))
        (run_maybe_sudo (codes "systemctl") (codes "enable" ∷ codes "--now" ∷ codes "docker" ∷ []))
    named ← gets (m.getenv (codes "USER"))
    let user = if is_empty named then codes "$(whoami)" else named
    run_maybe_sudo (codes "usermod") (codes "-aG" ∷ codes "docker" ∷ user ∷ []) >>? in_group user
    run_cmd_verbose m (codes "docker") (codes "--version" ∷ []) >>? λ _. pure tt

  -- An AUR helper: act-bin, then act. The answer is whether act has been installed.
  unfoldable pub aur_act : Text → Script W Bool
  aur_act helper =
      run_cmd_verbose m helper (codes "-S" ∷ codes "--noconfirm" ∷ codes "act-bin" ∷ []) >>? λ r.
      if succeeded r then pure true else (do
        info m (codes "[host] '" ++ (helper ++ codes " -S act-bin' failed, trying 'act'"))
        run_cmd_verbose m helper (codes "-S" ∷ codes "--noconfirm" ∷ codes "act" ∷ []) >>? λ r2.
            pure (succeeded r2))

  unfoldable pub arch_act : Script W Bool
  arch_act = look_path (codes "yay") >>? λ yay.
      if succeeded yay
      then aur_act (codes "yay")
      else (look_path (codes "paru") >>? λ paru.
          if succeeded paru then aur_act (codes "paru") else pure false)

  abbrev pub apt_installed : Result (Unit {0}) → Script W Bool
  apt_installed (ok _) = do run_cmd_verbose m (codes "act") (codes "--version" ∷ []); pure true
  apt_installed (err e) = do
    info m
        (codes "[host] 'apt-get install act' failed, falling back to GitHub release: " ++ message e)
    pure false

  unfoldable pub debian_act : Script W Bool
  debian_act = run_maybe_sudo (codes "apt-get") (codes "update" ∷ []) >>? λ _.
      (run_maybe_sudo (codes "apt-get") (codes "install" ∷ codes "-y" ∷ codes "act" ∷ [])
        >>? apt_installed)

  abbrev tarball : Text
  tarball =
      if text_eq m.arch_name (codes "arm64")
      then codes "act_Linux_arm64.tar.gz"
      else codes "act_Linux_x86_64.tar.gz"

  -- The fallback: the released binary.
  unfoldable pub download_act : Script W (Unit {0})
  download_act = do
    let url = codes "https://github.com/nektos/act/releases/download/v0.2.62/" ++ tarball
    tmp ← gets (λ w. join_path (m.temp_dir w) tarball)
    info m (codes "[host] Downloading " ++ url)
    failing_as (wrapped (codes "failed to download act"))
        (run_cmd_verbose m (codes "curl") (codes "-L" ∷ codes "-o" ∷ tmp ∷ url ∷ []))
    info m (codes "[host] Extracting to /usr/local/bin (requires root)...")
    failing_as (wrapped (codes "failed to extract act")) (
        run_maybe_sudo (codes "tar")
          (codes "-C" ∷ codes "/usr/local/bin" ∷ codes "-xzf" ∷ tmp ∷ codes "act" ∷ []))
    remove_file tmp
    run_cmd_verbose m (codes "act") (codes "--version" ∷ [])

  unfoldable pub install_host_act : Script W (Unit {0})
  install_host_act = do
    info m (codes "[host] Installing act...")
    look_path (codes "act") >>? λ present.
        if succeeded present then info m (codes "[host] act already installed") else (do
          arch ← gets (is_arch_like m)
          debian ← gets (is_debian_like m)
          done ← if arch then arch_act else if debian then debian_act else pure false
          if done then pure tt else download_act)

  unfoldable pub verify_host_docker : Script W (Unit {0})
  verify_host_docker = do
    failing_as (wrapped (codes "docker not found in PATH")) (look_path (codes "docker"))
    failing_as (wrapped (codes "docker --version failed"))
        (run_cmd_verbose m (codes "docker") (codes "--version" ∷ []))
    failing_as (wrapped (codes "docker service is not enabled or systemctl check failed"))
        (run_maybe_sudo (codes "systemctl") (codes "is-enabled" ∷ codes "docker" ∷ []))
    failing_as (wrapped (codes "docker service is not active or systemctl check failed"))
        (run_maybe_sudo (codes "systemctl") (codes "is-active" ∷ codes "docker" ∷ []))
    failing_as (wrapped (codes "docker group not found"))
        (run_cmd_verbose m (codes "getent") (codes "group" ∷ codes "docker" ∷ []))

  unfoldable pub verify_host_act : Script W (Unit {0})
  verify_host_act = do
    failing_as (wrapped (codes "act not found in PATH")) (look_path (codes "act"))
    failing_as (wrapped (codes "act --version failed"))
        (run_cmd_verbose m (codes "act") (codes "--version" ∷ []))
