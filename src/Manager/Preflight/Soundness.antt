-- ===== src/Manager/Preflight/Soundness.antt =====
-- What it means that every check before the start passes (internal/manager/sanity.go).
use modeld_go.Common.{
  ◌≡◌, ◌⊎◌, ◌&&◌, [], ◌∷◌, ◌++◌, pos, codes, leb_ℤ, ltb_ℤ, text_dec, ite, sym, if◌then◌else◌, refl,
  ap, Bool, true, false, Option, none, some, List, Text, is_empty, ◌↔◌, arith, inl, inr, Bool-cases,
}
use modeld_go.Types.{Model}
use modeld_go.Server.{ServerAdapter}
use modeld_go.Errors.{Result, ok, err}
use modeld_go.Manager.{Manager, Adapter, absent, server, subprocess, custom}
use modeld_go.Manager.Instances.{get_model_by_id}
use modeld_go.Manager.Preflight.{
  Check, PreflightEnv, check_stat, check_file, check_listed, check_registry, check_default, Reply,
  passes, fails, listed, replied, is_in, probe_timeout, check_local, check_server, probe, checks_of,
  preflight, all_ok,
}

-- A default model is set and is in the registry, and `P` holds of it.
abbrev pub DefaultModel : (Model → Type 0) → Manager → Type 0
DefaultModel P m =
    (is_empty m.default_model ≡ false)
    × (x : Model) × (get_model_by_id m.default_model m.registry ≡ some x)
    × P x

-- The model's path is set and is a file.
abbrev pub HasFile : PreflightEnv → Model → Type 0
HasFile env x = (is_empty x.path ≡ false) × (env.stat x.path ≡ ok false)

-- The reply has a status of success.
abbrev pub IsSuccess : Reply → Type 0
IsSuccess r = (leb_ℤ (pos 200) r.code ≡ true) × (ltb_ℤ r.code (pos 300) ≡ true)

abbrev pub IsIn : Text → List Text → Type 0
IsIn id [] = ⊥
IsIn id (t ∷ ts) = (t ≡ id) ⊎ IsIn id ts

-- The reply lists the id, if its body decodes and lists any.
abbrev pub Offers : Text → Option (List Text) → Type 0
Offers id none = Unit
Offers id (some []) = Unit
Offers id (some (t ∷ ts)) = IsIn id (t ∷ ts)

-- The answer of a server adapter's server to GET /v1/models.
abbrev pub answer_of : PreflightEnv → ServerAdapter → Result Reply
answer_of env s = env.get (s.base_url ++ codes "/v1/models") s.api_key (probe_timeout s.req_timeout)

-- The server has answered with success and offers the default model of the registry.
abbrev pub Serves : Manager → Result Reply → Type 0
Serves m (err e) = ⊥
Serves m (ok r) = IsSuccess r × DefaultModel (λ x. Offers m.default_model r.ids) m

-- What a manager needs to serve its default model.
abbrev pub Runnable : PreflightEnv → Manager → Adapter → Type 0
Runnable env m absent = ⊥
Runnable env m (server s) = Serves m (answer_of env s)
Runnable env m (subprocess a) = DefaultModel (HasFile env) m
Runnable env m custom = DefaultModel (HasFile env) m

stat_ok : (r : Result Bool) → (all_ok (check_stat r) ≡ true) ↔ (r ≡ ok false)
unfolding all_ok
stat_ok (ok false) = ((λ h. refl), (λ h. refl))
stat_ok (ok true) = ((λ h. absurd cc), (λ h. absurd cc))
stat_ok (err e) = ((λ h. absurd cc), (λ h. absurd cc))

file_ok : (env : PreflightEnv) (x : Model) → (all_ok (check_file env x.path) ≡ true) ↔ HasFile env x
unfolding check_file all_ok
file_ok env x = elim (Bool-cases (is_empty x.path)) [
  | inl unset ↦ ((λ h. absurd (ground (arith, h))), (λ h. absurd (ground (arith, h))))
  | inr set ↦
      rw (set, check_file)
        ((λ h. (refl, (stat_ok (env.stat x.path)).0 h)), (λ h. (stat_ok (env.stat x.path)).1 h.1))
]

same_model : (x y : Model) → some x ≡ some y → x ≡ y
same_model x y e = ap (λ r. elim r [ none ↦ x | some z ↦ z ]) e

registry_back :
    (P : Model → Type 0) (rest : Model → List Check)
    → ((x : Model) → (all_ok (rest x) ≡ true) ↔ P x)
    → (x y : Model) → some x ≡ some y
    → P y
    → all_ok (rest x) ≡ true
registry_back P rest iff x y e p = rw (same_model x y e) ((iff y).1 p)

registry_ok :
    (P : Model → Type 0) (rest : Model → List Check)
    → ((x : Model) → (all_ok (rest x) ≡ true) ↔ P x)
    → (r : Option Model)
    → (all_ok (check_registry rest r) ≡ true) ↔ ((x : Model) × (r ≡ some x) × P x)
unfolding check_registry all_ok
registry_ok P rest iff none = ((λ h. absurd cc), (λ h. let e = h.1 in absurd cc))
registry_ok P rest iff (some x) =
    ((λ h. (x, refl, (iff x).0 h)), (λ h. registry_back P rest iff x h.0 h.1 h.2))

default_ok :
    (P : Model → Type 0) (rest : Model → List Check)
    → ((x : Model) → (all_ok (rest x) ≡ true) ↔ P x)
    → (m : Manager) → (all_ok (check_default rest m) ≡ true) ↔ DefaultModel P m
unfolding check_default all_ok
default_ok P rest iff m = elim (Bool-cases (is_empty m.default_model)) [
  | inl unset ↦
      ((λ h. absurd (ground (arith, h))), (λ h. let e = h.0 in absurd (ground (arith, e, unset))))
  | inr set ↦
      let r = registry_ok P rest iff (get_model_by_id m.default_model m.registry) in
      rw set ((λ h. (refl, (r.0 h).0, (r.0 h).1, (r.0 h).2)), (λ h. r.1 (h.1, h.2, h.3)))
]

hit_or_rest :
    (id t : Text) (d : Dec (id ≡ t)) (b : Bool)
    → (if ite d true false then true else b) ≡ true
    → (t ≡ id) ⊎ (b ≡ true)
hit_or_rest id t (yes e) b h = inl (sym e)
hit_or_rest id t (no n) b h = inr h

hit_or_rest_back :
    (id t : Text) (d : Dec (id ≡ t)) (b : Bool)
    → (t ≡ id) ⊎ (b ≡ true)
    → (if ite d true false then true else b) ≡ true
hit_or_rest_back id t (yes e) b h = refl
hit_or_rest_back id t (no n) b (inl e) = absurd (n (sym e))
hit_or_rest_back id t (no n) b (inr h) = h

is_in-IsIn : (id : Text) (ts : List Text) → (is_in id ts ≡ true) ↔ IsIn id ts
is_in-IsIn id [] = ((λ h. absurd cc), (λ h. absurd h))
is_in-IsIn id (t ∷ ts) =
    let (there, back) = is_in-IsIn id ts in
    (
      (λ h. elim (hit_or_rest id t (text_dec id t) (is_in id ts) h) [
        | inl e ↦ inl e
        | inr more ↦ inr (there more)
      ]),
      (λ h.
          hit_or_rest_back id t (text_dec id t) (is_in id ts)
            (elim h [ inl e ↦ inl e | inr more ↦ inr (back more) ])),
    )

one_check :
    (b : Bool) (name why : Text)
    → (all_ok (if b then passes name ∷ [] else fails name why ∷ []) ≡ true) ↔ (b ≡ true)
unfolding all_ok
one_check true name why = ((λ h. refl), (λ h. refl))
one_check false name why = ((λ h. absurd cc), (λ h. absurd cc))

listed-Offers :
    (id : Text) (ids : Option (List Text))
    → (all_ok (check_listed id (listed ids)) ≡ true) ↔ Offers id ids
unfolding check_listed all_ok
listed-Offers id none = ((λ h. tt), (λ h. refl))
listed-Offers id (some []) = ((λ h. tt), (λ h. refl))
listed-Offers id (some (t ∷ ts)) =
    let (passed, holds) = one_check (is_in id (t ∷ ts)) _ _ in
    let (there, back) = is_in-IsIn id (t ∷ ts) in ((λ h. there (passed h)), (λ h. holds (back h)))

answer_ok :
    (low high : Bool) (why : Text) (m : Manager) (ids : Option (List Text))
    → (all_ok (
          check_server m (
            if low && high
            then (passes (codes "server_reachable"), listed ids)
            else (fails (codes "server_reachable") why, none)))
        ≡ true)
      ↔ (((low ≡ true) × (high ≡ true)) × DefaultModel (λ x. Offers m.default_model ids) m)
unfolding all_ok
answer_ok true true why m ids =
    let (there, back) =
      default_ok (λ x. Offers m.default_model ids) (λ x. check_listed m.default_model (listed ids))
        (λ x. listed-Offers m.default_model ids) m in
    ((λ h. ((refl, refl), there h)), (λ h. back h.1))
answer_ok true false why m ids = ((λ h. absurd cc), (λ h. let e = h.0.1 in absurd cc))
answer_ok false high why m ids = ((λ h. absurd cc), (λ h. let e = h.0.0 in absurd cc))

replied_ok :
    (m : Manager) (r : Result Reply) → (all_ok (check_server m (replied r)) ≡ true) ↔ Serves m r
unfolding all_ok
replied_ok m (err e) = ((λ h. absurd cc), (λ h. absurd h))
replied_ok m (ok r) = answer_ok (leb_ℤ (pos 200) r.code) (ltb_ℤ r.code (pos 300)) r.line m r.ids

local_ok :
    (env : PreflightEnv) (m : Manager)
    → (all_ok (check_local env m) ≡ true) ↔ DefaultModel (HasFile env) m
unfolding all_ok
local_ok env m = default_ok (HasFile env) (λ x. check_file env x.path) (file_ok env) m

adapter_ok :
    (env : PreflightEnv) (m : Manager) (a : Adapter)
    → (all_ok (checks_of env m a) ≡ true) ↔ Runnable env m a
unfolding checks_of all_ok probe
adapter_ok env m absent = ((λ h. absurd cc), (λ h. absurd h))
adapter_ok env m (server s) = replied_ok m (answer_of env s)
adapter_ok env m (subprocess a) = local_ok env m
adapter_ok env m custom = local_ok env m

-- Every check passes exactly when the manager can run its default model: there is an adapter; a default
-- model is set and is in the registry; its path is set and is a file, or, with the server adapter, the
-- server answers with success and lists it, if it lists any.
pub preflight_lem :
    (env : PreflightEnv) (m : Manager)
    → (all_ok (preflight env m) ≡ true) ↔ Runnable env m m.adapter
unfolding preflight
preflight_lem env m = adapter_ok env m m.adapter
