-- ===== src/Testctl/Install/Llama.antt =====
-- The build of llama.cpp (internal/testctl/install_llama.go).
use modeld_go.Common.{Bool, true, false, [], ◌∷◌, ◌++◌, Text, codes, if◌then◌else◌}
use modeld_go.Errors.{plain, wrapped, message, Result, ok, err}
use modeld_go.Testctl.{
  Machine, Stat, file, missing, unreadable, directory, Script, pure, fail, gets, failing_as, ◌>>=◌,
  ◌>>◌, ◌>>?◌,
}
use modeld_go.Testctl.Run.{info, run_cmd_verbose}
use modeld_go.Testctl.Os.{is_arch_like}
use modeld_go.Testctl.Files.{join_all}
use modeld_go.Testctl.Install.{look_path, make_dirs, run_maybe_sudo, is_missing}

abbrev pub gxx14 : Text
gxx14 = codes "/usr/bin/g++-14"

abbrev is_library : Stat → Bool
is_library file = true
is_library directory = false
is_library missing = false
is_library unreadable = false

abbrev path_or : Text → Result Text → Text
path_or p (ok q) = q
path_or p (err e) = p

module _ {W : Type 0} (m : Machine W) where
  abbrev pub fallback : Result (Unit {0}) → Script W Text
  fallback (ok _) = pure gxx14
  fallback (err e) = do
    info m (codes "[llama] Could not install gcc14 automatically: " ++ message e)
    look_path m (codes "g++") >>? λ r. pure (path_or (codes "/usr/bin/g++") r)

  -- The compiler for CUDA: g++-14, which is installed if it is missing, or else the default one.
  unfoldable pub host_compiler : Script W Text
  host_compiler = do
    found ← gets (m.stat gxx14)
    if is_missing found
        then (do
          info m (codes "[llama] gcc-14 not found; attempting installation…")
          run_maybe_sudo m (codes "pacman") (
                codes "-S"
                ∷ codes "--needed"
                ∷ codes "--noconfirm"
                ∷ codes "gcc14"
                ∷ codes "gcc14-libs"
                ∷ [])
              >>? fallback)
        else pure gxx14

  -- The sources, cloned or updated.
  unfoldable pub llama_sources : Text → Text → Script W (Unit {0})
  llama_sources src_dir llama_dir = do
    found ← gets (m.stat llama_dir)
    if is_missing found
        then (do
          make_dirs m src_dir
          info m (codes "[llama] Cloning llama.cpp into " ++ llama_dir)
          run_cmd_verbose m (codes "git")
              (codes "clone" ∷ codes "https://github.com/ggerganov/llama.cpp.git" ∷ llama_dir ∷ []))
        else (do
          info m (codes "[llama] Updating llama.cpp in " ++ llama_dir)
          run_cmd_verbose m (codes "git")
                (codes "-C" ∷ llama_dir ∷ codes "pull" ∷ codes "--ff-only" ∷ [])
              >>? λ _. pure tt)

  unfoldable pub llama_build : Text → Text → Text → Script W (Unit {0})
  llama_build host_cxx llama_dir build_dir = do
    info m (codes "[llama] Configuring CMake (CUDA) with host compiler: " ++ host_cxx)
    run_cmd_verbose m (codes "cmake") (
        codes "-S"
        ∷ llama_dir
        ∷ codes "-B"
        ∷ build_dir
        ∷ codes "-DCMAKE_BUILD_TYPE=Release"
        ∷ codes "-DGGML_CUDA=ON"
        ∷ codes "-DCUDAToolkit_ROOT=/opt/cuda"
        ∷ (codes "-DCMAKE_CUDA_HOST_COMPILER=" ++ host_cxx)
        ∷ [])
    run_cmd_verbose m (codes "cmake") (codes "--build" ∷ build_dir ∷ codes "-j" ∷ [])

  -- The library that the build must have left, and what to set then.
  unfoldable pub llama_built : Text → Text → Script W (Unit {0})
  llama_built llama_dir so_path = do
    built ← gets (m.stat so_path)
    if is_library built
        then pure tt
        else fail (plain (codes "libllama.so not found at " ++ so_path))
    info m (codes "[llama] Built: " ++ so_path)
    info m (codes "[llama] Next steps (fish shell, current session):")
    info m (codes "    set -gx LLAMA_CPP_DIR " ++ llama_dir)
    info m (codes "    set -gx CGO_CFLAGS  \"-I$LLAMA_CPP_DIR -I$LLAMA_CPP_DIR/ggml/include\"")
    info m (codes "    set -gx CGO_LDFLAGS \"-L$LLAMA_CPP_DIR/build-cuda14 -lllama\"")
    info m (
        codes
          "    set -gx LD_LIBRARY_PATH \"$LLAMA_CPP_DIR/build-cuda14:/opt/cuda/lib64:$LD_LIBRARY_PATH\"")
    info m (codes "    set -gx CGO_ENABLED 1")

  unfoldable pub install_llama_cuda : Script W (Unit {0})
  install_llama_cuda = do
    arch ← gets (is_arch_like m)
    if arch
        then pure tt
        else fail (
            plain (
              codes "llama:cuda installer currently supports Arch Linux-like distros; on "
              ++ (m.os_name ++ codes " please follow llama.cpp build docs for CUDA")))
    info m (codes "[llama] Installing prerequisites (Arch)…")
    run_cmd_verbose m (codes "pacman") (
          codes "-S"
          ∷ codes "--needed"
          ∷ codes "--noconfirm"
          ∷ codes "base-devel"
          ∷ codes "cmake"
          ∷ codes "git"
          ∷ codes "ninja"
          ∷ codes "openblas"
          ∷ codes "cblas"
          ∷ codes "lapack"
          ∷ [])
        >>? λ _. pure tt
    failing_as (wrapped (codes "failed to install cuda via pacman")) (
        run_maybe_sudo m (codes "pacman")
          (codes "-S" ∷ codes "--needed" ∷ codes "--noconfirm" ∷ codes "cuda" ∷ []))
    host_cxx ← host_compiler
    home ← gets m.user_home
    let src_dir = join_all home (codes "src" ∷ [])
    let llama_dir = join_all src_dir (codes "llama.cpp" ∷ [])
    let build_dir = join_all llama_dir (codes "build-cuda14" ∷ [])
    llama_sources src_dir llama_dir
    llama_build host_cxx llama_dir build_dir
    llama_built llama_dir (join_all build_dir (codes "libllama.so" ∷ []))
