-- ===== src/Infer/Slots.antt =====
-- What a call of Infer leaves of an instance's channels (internal/manager/inference.go, with
-- internal/manager/queue_admission.go).
use modeld_go.Common.{
  ℕ, ◌≡◌, refl, Option, none, some, Text, is_empty, trim_space, Bool-cases, Option-cases, ◌⊎◌, inl,
  inr,
}
use modeld_go.Types.{InferRequest, Model}
use modeld_go.Errors.{Result, ok, err}
use modeld_go.Manager.{Manager, Adapter}
use modeld_go.Manager.Instances.{get_model_by_id}
use modeld_go.Manager.Ensure.{ensure_instance}
use modeld_go.Manager.Queue.{release}
use modeld_go.Manager.Queue.Single.{channels, Balanced, begin_generation-Balanced}
use modeld_go.Infer.{
  InferEnv, Session, Answer, after_start, start_session, params_of, serve_model, serve, is_absent,
  released, admitted, ensured, target_of, infer,
}

module _ {W : Type 0} (env : InferEnv W) where
  -- The instances are the same; the adapter may have changed.
  abbrev Same : Manager → Answer env → Type 0
  Same m none = Unit
  Same m (some (w, n, e)) = n.instances ≡ m.instances

  -- The channels of an instance are the same.
  abbrev pub Kept : Text → Manager → Answer env → Type 0
  Kept id m none = Unit
  Kept id m (some (w, n, e)) = channels id n ≡ channels id m

  after_start-Same :
      (m : Manager) (w : W) (r : Option (Adapter × Result (Option (Session W))))
      → Same m (after_start env m w r)
  after_start-Same m w none = tt
  after_start-Same m w (some (ad, r)) = refl

  serve_model-Same :
      (req : InferRequest) (id : Text) (m : Manager) (w : W) (x : Option Model)
      → Same m (serve_model env req id m w x)
  unfolding serve_model
  serve_model-Same req id m w none = refl
  serve_model-Same req id m w (some x) = elim (Bool-cases (is_empty (trim_space x.path))) [
    | inl blank ↦ rw blank refl
    | inr path ↦ elim (Option-cases env.ctx_start) [
      | inl live ↦
          rw (path, live)
            (after_start-Same m w (start_session env m.adapter x.path (params_of req)))
      | inr (e, over) ↦ rw (path, over) refl
    ]
  ]

  serve-Same :
      (req : InferRequest) (id : Text) (m : Manager) (w : W) → Same m (serve env req id m w)
  unfolding serve
  serve-Same req id m w = elim (Bool-cases (is_absent env m.adapter)) [
    | inl gone ↦ rw gone refl
    | inr there ↦ rw there (serve_model-Same req id m w (get_model_by_id id m.registry))
  ]

  released-Kept :
      (id : Text) (ref : ℕ) (m before : Manager) (r : Answer env)
      → Same m r
      → channels id (release ref m) ≡ channels id before
      → Kept id before (released env ref r)
  unfolding release
  released-Kept id ref m before none same back = tt
  released-Kept id ref m before (some (w, n, e)) same back = rw same back

  admitted-Kept :
      (req : InferRequest) (id : Text) (w : W) (before : Manager) (r : Manager × Result ℕ)
      → Balanced id before r
      → Kept id before (admitted env req id w r)
  unfolding admitted
  admitted-Kept req id w before (m, err e) back = back
  admitted-Kept req id w before (m, ok ref) back =
      released-Kept id ref m before (serve env req id m w) (serve-Same req id m w) back

  abbrev pub Settled : Text → Manager → Manager → Answer env → Type 0
  Settled id m n none = Unit
  Settled id m n (some (w, o, e)) = (o ≡ m) ⊎ (channels id o ≡ channels id n)

  settled : (id : Text) (m n : Manager) (r : Answer env) → Kept id n r → Settled id m n r
  settled id m n none kept = tt
  settled id m n (some (w, o, e)) kept = inr kept

  -- When EnsureInstance succeeds, Infer leaves the instance's channels as EnsureInstance left them, on
  -- every path on which it returns: no slot is lost, whether the admission, the start, the generation
  -- or the writing fails or panics; or Infer refused the call before, and changed nothing.
  pub infer-Settled :
      (req : InferRequest) (w : W) (m n : Manager)
      → ensure_instance env.ensure (target_of env req m) m ≡ some (n, none)
      → Settled (target_of env req m) m n (infer env req w m)
  unfolding infer ensured
  infer-Settled req w m n there = elim (Bool-cases env.writer_nil) [
    | inl no_writer ↦ rw no_writer (inl refl)
    | inr writes ↦ elim (Bool-cases env.context_nil) [
      | inl no_context ↦ rw (writes, no_context) (inl refl)
      | inr lives ↦ elim (Option-cases env.ctx_first) [
        | inr (e, over) ↦ rw (writes, lives, over) (inl refl)
        | inl live ↦ elim (Bool-cases (is_empty (target_of env req m))) [
          | inl none_named ↦ rw (writes, lives, live, none_named) (inl refl)
          | inr named ↦
              rw (writes, lives, live, named, there)
                (settled (target_of env req m) m n _ (
                  admitted-Kept req (target_of env req m) w n _
                    (begin_generation-Balanced env.gen (target_of env req m) n)))
        ]
      ]
    ]
  ]
