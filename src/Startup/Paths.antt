-- ===== src/Startup/Paths.antt =====
-- internal/common/fsutil/fsutil.go, with what the program uses of path/filepath (on Unix).
pub mod Home
use modeld_go.Common.{
  ℕ, Bool, true, false, ◌≡◌, refl, Option, none, some, List, [], ◌∷◌, ◌++◌, Text, codes, text_eq,
  text_dec, is_empty, has_prefix, drop, if◌then◌else◌, ◌==◌,
}
use mathlib.Core.List.{reverse}
use modeld_go.Errors.{Error, wrapped, Result, ok, err}

-- strings.Split with a separator of one character.
abbrev pub into_first : ℕ → List Text → List Text
into_first c [] = (c ∷ []) ∷ []
into_first c (p ∷ ps) = (c ∷ p) ∷ ps

unfoldable pub split_on : ℕ → Text → List Text
split_on sep [] = [] ∷ []
split_on sep (c ∷ s) = elim (c == sep) [
  | true ↦ [] ∷ split_on sep s
  | false ↦ into_first c (split_on sep s)
]

-- strings.Join
unfoldable pub join_with : Text → List Text → Text
join_with sep [] = []
join_with sep (p ∷ []) = p
join_with sep (p ∷ q ∷ ps) = p ++ sep ++ join_with sep (q ∷ ps)

-- One element of a path that is made clean; `out` has the elements before it, the last one first.
abbrev up : Bool → List Text → List Text
up true [] = []
up false [] = codes ".." ∷ []
up rooted (p ∷ out) = if text_eq p (codes "..") then codes ".." ∷ p ∷ out else out

clean_elements : Bool → List Text → List Text → List Text
clean_elements rooted [] out = reverse out
clean_elements rooted (p ∷ ps) out =
    if is_empty p
    then clean_elements rooted ps out
    else if text_eq p (codes ".")
    then clean_elements rooted ps out
    else if text_eq p (codes "..")
    then clean_elements rooted ps (up rooted out)
    else clean_elements rooted ps (p ∷ out)

abbrev pub is_absolute : Text → Bool
is_absolute [] = false
is_absolute (c ∷ s) = c == b'/'

-- filepath.Clean
unfoldable pub clean : Text → Text
unfolding clean_elements split_on join_with
clean path = elim (is_absolute path) [
  | true ↦ b'/' ∷ join_with (codes "/") (clean_elements true (split_on b'/' path) [])
  | false ↦
      let out = join_with (codes "/") (clean_elements false (split_on b'/' path) []) in
      if is_empty out then codes "." else out
]

-- filepath.Join of two elements: an empty one is left out.
unfoldable pub join_path : Text → Text → Text
unfolding clean
join_path a b =
    if is_empty a
    then if is_empty b then [] else clean b
    else if is_empty b
    then clean a
    else clean (a ++ b'/' ∷ b)

-- filepath.Ext: what follows the last dot of the last element, with the dot.
abbrev ext_from : Text → Text → Text
ext_from found [] = found
ext_from found (c ∷ s) =
    let at_dot = ext_from (c ∷ s) s in
    let reset = ext_from [] s in
    let on = ext_from found s in if c == b'.' then at_dot else if c == b'/' then reset else on

unfoldable pub ext : Text → Text
ext path = ext_from [] path

-- strings.TrimPrefix(path, "~/")
abbrev pub trim_tilde : Text → Text
trim_tilde path = if has_prefix path (codes "~/") then drop 2 path else path

-- ExpandHome; `home` is os.UserHomeDir().
unfoldable pub expand_home : Result Text → Text → Result Text
unfolding join_path
expand_home home [] = ok []
expand_home home (c ∷ s) =
    if c == b'~'
    then elim home [
      | err e ↦ err (wrapped (codes "home dir") e)
      | ok h ↦ if is_empty s then ok h else ok (join_path h (trim_tilde (c ∷ s)))
    ]
    else ok (c ∷ s)

-- The same in main.go, for the models directory: without a home directory, and for other paths that
-- start with `~`, nothing is replaced.
unfoldable pub expand_models_dir : Result Text → Text → Text
unfolding join_path
expand_models_dir home dir =
    if has_prefix dir (codes "~")
    then elim home [
      | err e ↦ dir
      | ok h ↦
          if text_eq dir (codes "~")
          then h
          else if has_prefix dir (codes "~/")
          then join_path h (drop 2 dir)
          else dir
    ]
    else dir

-- filepath.Abs; `cwd` is os.Getwd().
unfoldable pub abs : Result Text → Text → Result Text
unfolding clean join_path
abs cwd path =
    if is_absolute path
    then ok (clean path)
    else elim cwd [ err e ↦ err e | ok d ↦ ok (join_path d path) ]

paths_run :
    (join_path (codes "/home/a") (codes "./b//../c.gguf") ≡ codes "/home/a/c.gguf")
    × (ext (codes "a.b/c.YAML") ≡ codes ".YAML")
    × (clean (codes "../x/.") ≡ codes "../x")
unfolding join_path ext clean clean_elements split_on join_with text_dec
paths_run = (refl, refl, refl)
