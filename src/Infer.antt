-- ===== src/Infer.antt =====
-- internal/manager/inference.go: a request is admitted, generated by the adapter, and streamed.
pub mod Slots
pub mod Document
pub mod Streaming
pub mod Success
pub mod Keeps
use modeld_go.Common.{
  ℕ, zero, suc, ◌+◌, ◌≡◌, refl, Bool, true, false, ◌||◌, Option, none, some, List, [], ◌∷◌, ◌++◌,
  Text, codes, is_empty, trim_space, ℤ, pos, pos_part, leb_ℤ, ltb_ℤ, if◌then◌else◌, length, drop,
  ltb, leb, decimal,
}
use modeld_go.Output.{Outcome, value, panicked, Writer, write_all, safe_flush}
use modeld_go.Types.{InferRequest, Model}
use modeld_go.Errors.{
  Error, plain, wrapped, canceled, deadline_exceeded, dependency_unavailable, model_not_found,
  is_canceled, is_deadline_exceeded, Result, ok, err,
}
use modeld_go.Process.{SubprocessAdapter}
use modeld_go.Process.Spawn.{SpawnEnv, ensure_process}
use modeld_go.Manager.{Manager, Adapter, absent, server, subprocess, custom}
use modeld_go.Manager.Instances.{get_model_by_id}
use modeld_go.Manager.Load.{EnsureEnv}
use modeld_go.Manager.Ensure.{ensure_instance}
use modeld_go.Manager.Queue.{GenEnv, begin_generation, release}

-- InferParams; the floats are as in Types.
pub record InferParams : Type 0 where
  pub temperature : ℤ
  pub top_p : ℤ
  pub top_k : ℤ
  pub max_tokens : ℤ
  pub stop : List Text
  pub seed : ℤ
  pub repeat_penalty : ℤ

-- Usage
pub record Usage : Type 0 where
  pub prompt_tokens : ℤ
  pub completion_tokens : ℤ
  pub total_tokens : ℤ

-- FinalResult
pub record FinalResult : Type 0 where
  pub content : Text
  pub usage : Usage
  pub finish_reason : Text

-- What goes on while a request is streamed: the writer, the text so far, and how many tokens came.
pub record Sink (W : Type 0) : Type 0 where
  pub writer : W
  pub built : Text
  pub count : ℕ

-- The callback for a token.
abbrev pub OnToken : Type 0 → Type 0
OnToken W = Text → Sink W → Sink W × Outcome (Option Error)

-- InferSession: Generate, which makes calls of the callback, and the error of Close.
pub record Session (W : Type 0) : Type 0 where
  pub generate : OnToken W → Sink W → Sink W × Outcome (FinalResult × Option Error)
  pub close : Option Error

-- What meets one call: whether the writer or the context is nil, the context's error at each place
-- where it is read (`token_ctx k` for token `k`), the parts of the system, the encoders (encoding/json
-- for a token line and for the final line, and the quoting of `%q`), the sessions of the two adapters
-- that the package has, and Start of any other.
pub record InferEnv (W : Type 0) : Type 0 where
  pub writer_nil : Bool
  pub context_nil : Bool
  pub ctx_first : Option Error
  pub ctx_start : Option Error
  pub token_ctx : ℕ → Option Error
  pub ctx_after : Option Error
  pub ensure : EnsureEnv
  pub gen : GenEnv
  pub spawn : SpawnEnv
  pub spawn_rounds : ℕ
  pub write : Writer W
  pub flush : Option (W → W)
  pub quote : Text → Text
  pub token_line : Text → Text
  pub final_line : Text → Text → Usage → Result Text
  pub session : Text → InferParams → Session W
  pub start : Text → InferParams → Result (Option (Session W))

-- The parameters that are handed on, with a negative token limit as 0.
unfoldable pub params_of : InferRequest → InferParams
params_of req = record {
  temperature = req.temperature;
  top_p = req.top_p;
  top_k = req.top_k;
  max_tokens = if ltb_ℤ req.max_tokens (pos 0) then pos 0 else req.max_tokens;
  stop = req.stop;
  seed = req.seed;
  repeat_penalty = req.repeat_penalty;
}

abbrev pub any : (Error → Bool) → Option Error → Bool
any f none = false
any f (some e) = f e

-- An error of Generate: one of the context is preferred.
unfoldable pub generate_error : Option Error → Error → Error
generate_error ctx e =
    if is_canceled e || any is_canceled ctx
    then canceled
    else if is_deadline_exceeded e || any is_deadline_exceeded ctx
    then deadline_exceeded
    else wrapped (codes "adapter generate") e

module _ {W : Type 0} (env : InferEnv W) where
  -- After the line of a token was written.
  unfoldable pub token_written :
      Text → Sink W → W × Outcome (Option Error) → Sink W × Outcome (Option Error)
  token_written tok s (w, value none) = (
    record { writer = safe_flush env.flush w; built = s.built ++ tok; count = suc s.count },
    value none,
  )
  token_written tok s (w, value (some e)) =
      (record s { writer = w; count = suc s.count }, value (some e))
  token_written tok s (w, panicked why) =
      (record s { writer = w; count = suc s.count }, panicked why)

  -- The callback `onTok`.
  unfoldable pub on_tok : OnToken W
  unfolding token_written write_all
  on_tok tok s = elim (env.token_ctx s.count) [
    | some e ↦ (record s { count = suc s.count }, value (some e))
    | none ↦ token_written tok s (write_all env.write (env.token_line tok) s.writer)
  ]

  -- The end of the final line.
  unfoldable pub final_written : W × Outcome (Option Error) → W × Option Error
  final_written (w, value none) = (safe_flush env.flush w, none)
  final_written (w, value (some e)) = (w, some e)
  final_written (w, panicked why) = (w, some (plain (codes "internal error: " ++ why)))

  -- After Generate. A panic becomes an error; the deferred calls run on every path, and the error of
  -- Close, which they keep in a variable, comes too late for the result.
  unfoldable pub finish : Sink W × Outcome (FinalResult × Option Error) → W × Option Error
  unfolding final_written write_all generate_error
  finish (s, panicked why) = (s.writer, some (plain (codes "internal error: " ++ why)))
  finish (s, value (final, some e)) = (s.writer, some (generate_error env.ctx_after e))
  finish (s, value (final, none)) =
      elim (env.final_line (if is_empty final.content then s.built else final.content)
        final.finish_reason final.usage) [
          | err e ↦ (s.writer, some (wrapped (codes "marshal final line") e))
          | ok line ↦ final_written (write_all env.write (line ++ b'\n' ∷ []) s.writer)
        ]

  unfoldable pub stream : Session W → W → W × Option Error
  unfolding on_tok finish
  stream sess w = finish (sess.generate on_tok (record { writer = w; built = []; count = 0 }))

  -- After Start.
  unfoldable pub started : Result (Option (Session W)) → W → W × Option Error
  unfolding stream
  started (err e) w = (w, some (wrapped (codes "adapter start") e))
  started (ok none) w = (w, some (plain (codes "adapter start returned nil session")))
  started (ok (some sess)) w = stream sess w

  -- Start of the adapter; `none`: it has not returned.
  unfoldable pub start_session :
      Adapter → Text → InferParams → Option (Adapter × Result (Option (Session W)))
  start_session absent path params = some (absent, err (plain []))
  start_session (server s) path params =
      some (server s, ok (some (env.session (trim_space path) params)))
  start_session (subprocess a) path params =
      if is_empty (trim_space path)
      then some (subprocess a, err (plain (codes "modelPath is empty")))
      else elim (ensure_process env.spawn_rounds env.spawn path a) [
        | none ↦ none
        | some (err e, b) ↦ some (subprocess b, err e)
        | some (ok url, b) ↦ some (subprocess b, ok (some (env.session url params)))
      ]
  start_session custom path params = some (custom, env.start path params)

  -- What a call answers: the writer, the manager, and the error.
  abbrev pub Answer : Type 0
  Answer = Option (W × Manager × Option Error)

  abbrev after_start : Manager → W → Option (Adapter × Result (Option (Session W))) → Answer
  after_start m w none = none
  after_start m w (some (ad, r)) =
      let (w', e) = started r w in some (w', record m { adapter = ad }, e)

  -- With a model of the registry.
  unfoldable pub serve_model : InferRequest → Text → Manager → W → Option Model → Answer
  serve_model req id m w none = some (w, m, some (model_not_found id))
  serve_model req id m w (some x) =
      if is_empty (trim_space x.path)
      then some (w, m, some (model_not_found id))
      else elim env.ctx_start [
        | some e ↦ some (w, m, some e)
        | none ↦ after_start m w (start_session m.adapter x.path (params_of req))
      ]

  abbrev is_absent : Adapter → Bool
  is_absent absent = true
  is_absent _ = false

  -- Between the admission and the release.
  unfoldable pub serve : InferRequest → Text → Manager → W → Answer
  serve req id m w =
      if is_absent m.adapter
      then some (w, m, some (dependency_unavailable (codes "llama adapter not initialized")))
      else serve_model req id m w (get_model_by_id id m.registry)

  abbrev pub released : ℕ → Answer → Answer
  released ref none = none
  released ref (some (w, m, e)) = some (w, release ref m, e)

  -- After the admission; the release is deferred.
  unfoldable pub admitted : InferRequest → Text → W → Manager × Result ℕ → Answer
  admitted req id w (m, err e) =
      some (w, m, some (wrapped (codes "begin generation " ++ env.quote id) e))
  admitted req id w (m, ok ref) = released ref (serve req id m w)

  unfoldable pub ensured : InferRequest → Text → W → Option (Manager × Option Error) → Answer
  ensured req id w none = none
  ensured req id w (some (m, some e)) =
      some (w, m, some (wrapped (codes "ensure instance " ++ env.quote id) e))
  ensured req id w (some (m, none)) = admitted req id w (begin_generation env.gen id m)

  abbrev pub target_of : InferRequest → Manager → Text
  target_of req m = if is_empty req.model then m.default_model else req.model

  -- Infer
  unfoldable pub infer : InferRequest → W → Manager → Answer
  infer req w m =
      if env.writer_nil
      then some (w, m, some (plain (codes "writer is nil")))
      else if env.context_nil
      then some (w, m, some (plain (codes "context is nil")))
      else elim env.ctx_first [
        | some e ↦ some (w, m, some e)
        | none ↦
            if is_empty (target_of req m)
            then some (w, m, some (model_not_found (codes "(unspecified)")))
            else ensured req (target_of req m) w (ensure_instance env.ensure (target_of req m) m)
      ]
