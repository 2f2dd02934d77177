-- ===== src/Testctl/Models.antt =====
-- The models that the tests find (internal/testctl/fs.go) and those that the program finds in the same
-- directory (internal/registry/loader.go).
use modeld_go.Common.{
  ◌≡◌, refl, Bool, true, false, List, [], ◌∷◌, ◌++◌, Text, codes, Bool-cases, inl, inr, arith,
}
use modeld_go.Errors.{plain, Result, ok, err}
use modeld_go.Types.{Model}
use modeld_go.Startup.Registry.{Entry, models_of, is_gguf}
use modeld_go.Testctl.{Machine}
use modeld_go.Testctl.Files.{
  has_gguf_suffix, first_gguf_of, any_gguf, models_dir, first_gguf, has_host_models,
}

-- The id of the first of some models.
abbrev pub first_id : Text → List Model → Result Text
first_id dir [] = err (plain (codes "no .gguf models found in " ++ dir))
first_id dir (x ∷ xs) = ok x.id

abbrev pub is_found : Result Text → Bool
is_found (ok name) = true
is_found (err e) = false

first_gguf_of-models :
    (dir path : Text) (entries : List Entry)
    → first_gguf_of dir entries ≡ first_id dir (models_of path entries)
unfolding first_gguf_of models_of has_gguf_suffix is_gguf
first_gguf_of-models dir path [] = refl
first_gguf_of-models dir path (e ∷ entries) = elim (Bool-cases e.is_dir) [
  | inl d ↦ rw d (first_gguf_of-models dir path entries)
  | inr d ↦ elim (Bool-cases (is_gguf e.name)) [
    | inl g ↦ rw (d, g) refl
    | inr g ↦ rw (d, g) (first_gguf_of-models dir path entries)
  ]
]

any_gguf-first :
    (dir : Text) (entries : List Entry) → any_gguf entries ≡ is_found (first_gguf_of dir entries)
unfolding first_gguf_of any_gguf
any_gguf-first dir [] = refl
any_gguf-first dir (e ∷ entries) = ground (arith, any_gguf-first dir entries)

-- With a directory of host models: the tests find host models exactly if there is a default model, and
-- the default model that they give to the program is the id of the first model that its registry makes of
-- the same entries, whatever path it has for the directory.
pub host_models_lem :
    {W : Type 0} (m : Machine W) (path : Text) (entries : List Entry) (w : W)
    → m.read_dir (models_dir m w) w ≡ ok entries
    → (has_host_models m w ≡ is_found (first_gguf m (models_dir m w) w))
      × (first_gguf m (models_dir m w) w ≡ first_id (models_dir m w) (models_of path entries))
unfolding has_host_models first_gguf
host_models_lem m path entries w here = (
  rw here (any_gguf-first (models_dir m w) entries),
  rw here (first_gguf_of-models (models_dir m w) path entries),
)
