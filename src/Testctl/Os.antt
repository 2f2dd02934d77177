-- ===== src/Testctl/Os.antt =====
-- The kinds of Linux that the installers tell apart (internal/testctl/os_helpers.go).
use modeld_go.Common.{
  Bool, true, false, ◌||◌, List, [], ◌∷◌, Text, codes, text_eq, is_empty, has_prefix, trim_space,
  to_lower, if◌then◌else◌,
}
use modeld_go.Errors.{Result, ok, err}
use modeld_go.Startup.Paths.{split_on}
use modeld_go.Testctl.{Machine}

-- strings.Contains
unfoldable pub contains : Text → Text → Bool
unfolding has_prefix
contains [] t = has_prefix [] t
contains (c ∷ s) t = has_prefix (c ∷ s) t || contains s t

-- A line that names the system, or those that it is like.
unfoldable pub is_id_line : Text → Bool
unfolding has_prefix
is_id_line line =
    if is_empty line || has_prefix line (codes "#")
    then false
    else has_prefix line (codes "ID=") || has_prefix line (codes "ID_LIKE=")

-- The loop over the lines of /etc/os-release, which returns at the first ID line that passes a test.
unfoldable pub any_id_line : (Text → Bool) → List Text → Bool
unfolding is_id_line trim_space
any_id_line test [] = false
any_id_line test (raw ∷ lines) =
    let line = trim_space raw in
    let rest = any_id_line test lines in
    if is_id_line line then if test (to_lower line) then true else rest else rest

module _ {W : Type 0} (m : Machine W) where
  abbrev read : (Text → Bool) → Result Text → Bool
  read test (err e) = false
  read test (ok text) = any_id_line test (split_on 10 text)

  abbrev release : (Text → Bool) → W → Bool
  release test w =
      if text_eq m.os_name (codes "linux")
      then read test (m.read_file (codes "/etc/os-release") w)
      else false

  unfoldable pub is_arch_like : W → Bool
  unfolding any_id_line contains
  is_arch_like = release (λ lower. contains lower (codes "arch"))

  unfoldable pub is_debian_like : W → Bool
  unfolding any_id_line contains
  is_debian_like =
      release (λ lower. contains lower (codes "debian") || contains lower (codes "ubuntu"))

  unfoldable pub is_ubuntu_like : W → Bool
  unfolding any_id_line contains
  is_ubuntu_like = release (λ lower. contains lower (codes "ubuntu"))
