-- ===== src/Manager/Instances.antt =====
-- The map `instances` of the manager, and helpers.go of internal/manager.
use modeld_go.Common.{
  ℕ, ◌+◌, ◌*◌, ◌/◌, ◌≡◌, refl, Bool, true, false, Option, none, some, List, [], ◌∷◌, Text, text_eq,
  ℤ, pos, negsuc, ◌==◌, if◌then◌else◌, arith, length,
}
use modeld_go.Types.{Model}
use modeld_go.Manager.{Instance, State, ready, loading, errored, draining}

unfoldable pub find : Text → List Instance → Option Instance
find k [] = none
find k (i ∷ is) = if text_eq i.id k then some i else find k is

-- `m.instances[i.ID] = i`
unfoldable pub put : Instance → List Instance → List Instance
put i [] = i ∷ []
put i (j ∷ is) = if text_eq j.id i.id then i ∷ is else j ∷ put i is

-- `delete(m.instances, k)`
unfoldable pub erase : Text → List Instance → List Instance
erase k [] = []
erase k (i ∷ is) = if text_eq i.id k then is else i ∷ erase k is

-- A write through a pointer to an instance; it is not seen if the map has lost the instance.
unfoldable pub update_at : ℕ → (Instance → Instance) → List Instance → List Instance
update_at r f [] = []
update_at r f (i ∷ is) = (if i.ref == r then f i else i) ∷ update_at r f is

-- getModelByID
unfoldable pub get_model_by_id : Text → List Model → Option Model
get_model_by_id k [] = none
get_model_by_id k (x ∷ xs) = if text_eq x.id k then some x else get_model_by_id k xs

-- estimateVRAMMB, from the size that os.Stat gives, or `none` on its error. Go's `/` rounds towards
-- zero, so a negative size gives at most 0.
unfoldable pub estimate_vram_mb : Option ℤ → ℕ
estimate_vram_mb none = 1
estimate_vram_mb (some (negsuc n)) = 1
estimate_vram_mb (some (pos n)) = let mb = n / (1024 * 1024) in if mb == 0 then 1 else mb

abbrev pub is_ready : State → Bool
is_ready ready = true
is_ready _ = false

abbrev pub is_loading : State → Bool
is_loading loading = true
is_loading _ = false

abbrev pub is_draining : State → Bool
is_draining draining = true
is_draining _ = false

abbrev pub is_errored : State → Bool
is_errored errored = true
is_errored _ = false

-- The sum of the estimates.
unfoldable pub total_est : List Instance → ℕ
total_est [] = 0
total_est (i ∷ is) = i.est_vram_mb + total_est is

-- The keys of a map are distinct.
unfoldable pub Distinct : List Instance → Type 0
Distinct [] = Unit
Distinct (i ∷ is) = (find i.id is ≡ none) × Distinct is

pub find-erase :
    (j k : Text) (is : List Instance)
    → Distinct is
    → find j (erase k is) ≡ (if text_eq k j then none else find j is)
unfolding find erase Distinct
find-erase j k [] d = ground arith
find-erase j k (i ∷ is) d = ground (arith, find-erase j k is d.1)

pub find-put :
    (j : Text) (i : Instance) (is : List Instance)
    → find j (put i is) ≡ (if text_eq i.id j then some i else find j is)
unfolding find put
find-put j i [] = refl
find-put j i (_ ∷ is) = ground (arith, find-put j i is)

pub erase-Distinct : (k : Text) (is : List Instance) → Distinct is → Distinct (erase k is)
unfolding erase Distinct
erase-Distinct k [] d = tt
erase-Distinct k (i ∷ is) d = ground (arith, erase-Distinct k is d.1, find-erase i.id k is d.1)

pub put-Distinct : (i : Instance) (is : List Instance) → Distinct is → Distinct (put i is)
unfolding put Distinct find
put-Distinct i [] d = (refl, tt)
put-Distinct i (j ∷ is) d = ground (arith, put-Distinct i is d.1, find-put j.id i is)

pub total_est-erase :
    (k : Text) (is : List Instance) (i : Instance)
    → find k is ≡ some i
    → total_est (erase k is) + i.est_vram_mb ≡ total_est is
unfolding total_est erase find
total_est-erase k [] i e = ground arith
total_est-erase k (j ∷ is) i e = ground (arith, total_est-erase k is i)

pub length-erase :
    (k : Text) (is : List Instance) (i : Instance)
    → find k is ≡ some i
    → length (erase k is) + 1 ≡ length is
unfolding erase find
length-erase k [] i e = ground arith
length-erase k (j ∷ is) i e = ground (arith, length-erase k is i)

pub total_est-put_new :
    (i : Instance) (is : List Instance)
    → find i.id is ≡ none
    → total_est (put i is) ≡ total_est is + i.est_vram_mb
unfolding total_est put find
total_est-put_new i [] e = ground arith
total_est-put_new i (j ∷ is) e = ground (arith, total_est-put_new i is)

-- `f` changes neither the id nor the address.
abbrev pub Keeps : (Instance → Instance) → Type 0
Keeps f = (i : Instance) → ((f i).id ≡ i.id) × ((f i).ref ≡ i.ref)

abbrev pub on_ref : ℕ → (Instance → Instance) → Option Instance → Option Instance
on_ref r f none = none
on_ref r f (some i) = some (if i.ref == r then f i else i)

module _ (r : ℕ) (f : Instance → Instance) (keeps : Keeps f) where
  pub find-update_at :
      (j : Text) (is : List Instance) → find j (update_at r f is) ≡ on_ref r f (find j is)
  unfolding find update_at
  find-update_at j [] = refl
  find-update_at j (i ∷ is) = ground (arith, find-update_at j is, (keeps i).0)

  pub update_at-Distinct : (is : List Instance) → Distinct is → Distinct (update_at r f is)
  unfolding update_at Distinct
  update_at-Distinct [] d = tt
  update_at-Distinct (i ∷ is) d =
      (ground (arith, find-update_at i.id is, (keeps i).0), update_at-Distinct is d.1)

pub total_est-update_at :
    (r : ℕ) (f : Instance → Instance)
    → ((i : Instance) → (f i).est_vram_mb ≡ i.est_vram_mb)
    → (is : List Instance) → total_est (update_at r f is) ≡ total_est is
unfolding total_est update_at
total_est-update_at r f same [] = refl
total_est-update_at r f same (i ∷ is) = ground (arith, same i, total_est-update_at r f same is)

pub find-update_at_self :
    (f : Instance → Instance)
    → Keeps f
    → (id : Text) (is : List Instance) (i : Instance) → find id is ≡ some i
    → find id (update_at i.ref f is) ≡ some (f i)
find-update_at_self f keeps id is i here = ground (arith, find-update_at i.ref f keeps id is)
