-- ===== src/Testctl/Files.antt =====
-- The search for models (internal/testctl/fs.go) and for the server's binary (web_helpers.go).
use modeld_go.Common.{
  Bool, true, false, List, [], ◌∷◌, ◌++◌, Text, codes, is_empty, to_lower, has_suffix,
  if◌then◌else◌,
}
use modeld_go.Errors.{plain, Result, ok, err}
use modeld_go.Startup.Registry.{Entry}
use modeld_go.Startup.Paths.{join_path}
use modeld_go.Testctl.{Machine, Stat, file, missing, unreadable, directory}

-- The test of an entry that is not a directory.
unfoldable pub has_gguf_suffix : Text → Bool
has_gguf_suffix name = has_suffix (to_lower name) (codes ".gguf")

unfoldable pub first_gguf_of : Text → List Entry → Result Text
unfolding has_gguf_suffix
first_gguf_of dir [] = err (plain (codes "no .gguf models found in " ++ dir))
first_gguf_of dir (e ∷ entries) =
    let rest = first_gguf_of dir entries in
    if e.is_dir then rest else if has_gguf_suffix e.name then ok e.name else rest

unfoldable pub any_gguf : List Entry → Bool
unfolding has_gguf_suffix
any_gguf [] = false
any_gguf (e ∷ entries) =
    let rest = any_gguf entries in
    if e.is_dir then rest else if has_gguf_suffix e.name then true else rest

-- filepath.Join of more than two elements that are not empty.
abbrev pub join_all : Text → List Text → Text
join_all dir [] = dir
join_all dir (p ∷ ps) = join_all (join_path dir p) ps

module _ {W : Type 0} (m : Machine W) where
  unfoldable pub home_dir : W → Text
  home_dir w = let h = m.getenv (codes "HOME") w in if is_empty h then m.user_home w else h

  -- $HOME/models/llm
  abbrev pub models_dir : W → Text
  unfolding home_dir
  models_dir w = join_all (home_dir w) (codes "models" ∷ codes "llm" ∷ [])

  abbrev read_first : Text → Result (List Entry) → Result Text
  read_first dir (err e) = err e
  read_first dir (ok entries) = first_gguf_of dir entries

  unfoldable pub first_gguf : Text → W → Result Text
  unfolding first_gguf_of
  first_gguf dir w = read_first dir (m.read_dir dir w)

  abbrev read_any : Result (List Entry) → Bool
  read_any (err e) = false
  read_any (ok entries) = any_gguf entries

  unfoldable pub has_host_models : W → Bool
  unfolding any_gguf home_dir
  has_host_models w = read_any (m.read_dir (models_dir w) w)

  abbrev is_file : Stat → Bool
  is_file file = true
  is_file missing = false
  is_file unreadable = false
  is_file directory = false

  abbrev found_or : Text → Result Text → Text
  found_or name (ok path) = path
  found_or name (err e) = name

  -- The first of the paths that is a file, or what the PATH gives.
  first_file : List Text → W → Text
  first_file [] w = found_or (codes "llama-server") (m.look_path (codes "llama-server") w)
  first_file (p ∷ ps) w = let rest = first_file ps w in if is_file (m.stat p w) then p else rest

  unfoldable pub find_llama_bin : W → Text
  unfolding first_file home_dir
  find_llama_bin w =
      first_file
        (join_all (home_dir w) (
            codes "apps"
            ∷ codes "llama.cpp"
            ∷ codes "build"
            ∷ codes "bin"
            ∷ codes "llama-server"
            ∷ [])
          ∷ join_all (home_dir w) (
              codes ".local"
              ∷ codes "share"
              ∷ codes "Jan"
              ∷ codes "data"
              ∷ codes "llamacpp"
              ∷ codes "backends"
              ∷ codes "b6293"
              ∷ codes "linux-avx2-cuda-cu12.0-x64"
              ∷ codes "build"
              ∷ codes "bin"
              ∷ codes "llama-server"
              ∷ [])
          ∷ [])
        w
