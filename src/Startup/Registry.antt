-- ===== src/Startup/Registry.antt =====
-- internal/registry/loader.go: the models are the *.gguf files of a directory.
use modeld_go.Common.{
  Bool, ◌≡◌, ◌&&◌, not, refl, ap, List, [], ◌∷◌, Text, codes, to_lower, has_suffix, if◌then◌else◌,
  Bool-cases, inl, inr, filter_if,
}
use mathlib.Core.List.{map}
use modeld_go.Types.{Model}
use modeld_go.Errors.{wrapped, Result, ok, err}
use modeld_go.Startup.Paths.{expand_home, abs, join_path}

unfoldable pub is_gguf : Text → Bool
is_gguf name = has_suffix (to_lower name) (codes ".gguf")

-- os.DirEntry
pub record Entry : Type 0 where
  pub name : Text
  pub is_dir : Bool

-- The parts of the system that a scan reads: the home directory, the working directory, and os.ReadDir.
pub record FileSystem : Type 0 where
  pub home : Result Text
  pub cwd : Result Text
  pub read_dir : Text → Result (List Entry)

-- The loop over the entries.
unfoldable pub models_of : Text → List Entry → List Model
unfolding is_gguf join_path
models_of dir [] = []
models_of dir (e ∷ entries) =
    let rest = models_of dir entries in
    if e.is_dir
    then rest
    else if not (is_gguf e.name)
    then rest
    else record { id = e.name; name = e.name; path = join_path dir e.name; quant = []; family = [] }
      ∷ rest

abbrev in_dir : Text → Result (List Entry) → Result (List Model)
in_dir dir (err e) = err (wrapped (codes "read dir") e)
in_dir dir (ok entries) = ok (models_of dir entries)

abbrev at_abs : FileSystem → Result Text → Result (List Model)
at_abs fs (err e) = err (wrapped (codes "abs path") e)
at_abs fs (ok dir) = in_dir dir (fs.read_dir dir)

abbrev at_base : FileSystem → Result Text → Result (List Model)
at_base fs (err e) = err e
at_base fs (ok base) = at_abs fs (abs fs.cwd base)

-- GGUFScanner.Scan, and so LoadDir
unfoldable pub scan : FileSystem → Text → Result (List Model)
unfolding models_of expand_home abs
scan fs dir = at_base fs (expand_home fs.home dir)

-- The entries that the registry takes.
abbrev pub is_model : Entry → Bool
is_model e = not e.is_dir && is_gguf e.name

-- The model of an entry.
abbrev pub model_of : Text → Entry → Model
model_of dir e = record {
  id = e.name;
  name = e.name;
  path = join_path dir e.name;
  quant = [];
  family = [];
}

-- The models of a directory are its entries that are no directories and whose names end in ".gguf", in
-- any case, in the directory's order, each with its whole name as its id and its place as its path.
pub models_of_lem :
    (dir : Text) (entries : List Entry)
    → models_of dir entries ≡ map (model_of dir) (filter_if is_model entries)
unfolding models_of
models_of_lem dir [] = refl
models_of_lem dir (e ∷ entries) = elim (Bool-cases e.is_dir) [
  | inl folder ↦ rw (folder) (models_of_lem dir entries)
  | inr file ↦ elim (Bool-cases (is_gguf e.name)) [
    | inl takes ↦ rw (file, takes) (ap (λ ms. model_of dir e ∷ ms) (models_of_lem dir entries))
    | inr other ↦ rw (file, other) (models_of_lem dir entries)
  ]
]
