-- ===== src/Http/Handlers/Unknown.antt =====
-- A request for a model that the registry does not have, from Infer to the status of the response
-- (internal/manager/inference.go, instance_ensure.go, and internal/httpapi/server.go).
use modeld_go.Common.{◌≡◌, refl, false, none, some, [], Text, codes, ◌++◌, is_empty, pos, arith}
use modeld_go.Types.{InferRequest}
use modeld_go.Errors.{Error, wrapped, model_not_found, is_model_not_found}
use modeld_go.Manager.{Manager, announce}
use modeld_go.Manager.Instances.{get_model_by_id}
use modeld_go.Manager.Load.{EnsureEnv}
use modeld_go.Manager.Ensure.{has_ready, ensure_named, ensure_instance}
use modeld_go.Infer.{InferEnv, target_of, ensured, infer}
use modeld_go.Http.Handlers.{status_of}

-- The events that are published.
abbrev told : Text → Manager → Manager
told id m =
    announce (codes "ensure_model_not_found") id [] (announce (codes "ensure_start") id [] m)

ensure_unknown :
    (env : EnsureEnv) (id : Text) (m : Manager)
    → is_empty id ≡ false
    → has_ready id m ≡ false
    → get_model_by_id id m.registry ≡ none
    → ensure_instance env id m ≡ some (told id m, some (model_not_found id))
unfolding ensure_instance ensure_named has_ready announce
ensure_unknown env id m named cold unknown = ground arith

not_found_status : (t id : Text) → status_of (wrapped t (model_not_found id)) ≡ pos 404
unfolding status_of is_model_not_found
not_found_status t id = refl

told_instances : (id : Text) (m : Manager) → (told id m).instances ≡ m.instances
unfolding announce
told_instances id m = refl

-- With a writer and a context that has not ended, for an id that is neither loaded nor in the
-- registry, Infer returns: it has written nothing and has changed no instance, and its error is one
-- for which the handler's status is 404.
pub infer_unknown :
    {W : Type 0} (env : InferEnv W) (req : InferRequest) (w : W) (m : Manager)
    → env.writer_nil ≡ false
    → env.context_nil ≡ false
    → env.ctx_first ≡ none
    → is_empty (target_of env req m) ≡ false
    → has_ready (target_of env req m) m ≡ false
    → get_model_by_id (target_of env req m) m.registry ≡ none
    → (n : Manager) × (e : Error) × (infer env req w m ≡ some (w, n, some e))
      × (n.instances ≡ m.instances)
      × (status_of e ≡ pos 404)
unfolding infer ensured
infer_unknown env req w m writes lives live named cold unknown =
    let id = target_of env req m in
    let text = codes "ensure instance " ++ env.quote id in
    (
      told id m,
      wrapped text (model_not_found id),
      rw (writes, lives, live, named, ensure_unknown env.ensure id m named cold unknown) refl,
      told_instances id m,
      not_found_status text id,
    )
