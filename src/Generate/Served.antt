-- ===== src/Generate/Served.antt =====
-- A whole call of Infer over the server adapter, from the admission to the release
-- (internal/manager/inference.go and adapter_llama_server.go).
use modeld_go.Common.{
  ◌≡◌, ◌∙◌, refl, ap, true, false, ◌&&◌, none, some, [], Text, ◌++◌, is_empty, trim_space, ℕ, pos,
  leb_ℤ, ltb_ℤ,
}
use modeld_go.Types.{InferRequest, Model}
use modeld_go.Errors.{ok}
use modeld_go.Server.{ServerAdapter}
use modeld_go.Output.{safe_flush}
use modeld_go.Output.Writing.{Wrote}
use modeld_go.Manager.{Manager, server}
use modeld_go.Manager.Instances.{get_model_by_id}
use modeld_go.Manager.Ensure.{ensure_instance}
use modeld_go.Manager.Queue.{begin_generation, release}
use modeld_go.Infer.{
  InferEnv, InferParams, Usage, Session, params_of, stream, started, start_session, serve_model,
  serve, released, admitted, ensured, target_of, infer,
}
use modeld_go.Infer.Success.{Takes}
use modeld_go.Infer.Document.{document}
use modeld_go.Stream.Tokens.{tokens, last_reason}
use modeld_go.Generate.{GenerateEnv, Reply, final_of, server_call, server_session}
use modeld_go.Generate.Sessions.{shown}
use modeld_go.Generate.Success.{server_session_succeeds}

-- The server answers a call with a good status and a stream that ends, in which no payload is a plain
-- object with a text for its content.
abbrev pub Answers : GenerateEnv → ServerAdapter → Text → InferParams → Text → Reply → Type 0
Answers genv a path params prompt r =
    (genv.make_request (server_call a (trim_space path) params prompt).url ≡ none)
    × (genv.post (server_call a (trim_space path) params prompt) ≡ ok r)
    × (leb_ℤ (pos 200) r.code && ltb_ℤ r.code (pos 300) ≡ true)
    × (r.lines.ending ≡ none)
    × ((p : Text) → genv.decoder.choice p ≡ none → genv.decoder.content p ≡ none)

-- The writer keeps the contract of io.Writer and takes some of what it is given, and flushing adds nothing.
abbrev pub IsOpen : {W : Type 0} → InferEnv W → (W → Text) → Type 0
IsOpen {W = W} env text =
    ((p : Text) (w : W) → Wrote text p w (env.write p w))
    × ((w : W) → text (safe_flush env.flush w) ≡ text w)
    × Takes env.write

-- The call goes through: writer and context are there, the context lasts, and the final line can be
-- encoded.
abbrev pub IsLive : {W : Type 0} → InferEnv W → Type 0
IsLive env =
    (env.writer_nil ≡ false)
    × (env.context_nil ≡ false)
    × (env.ctx_first ≡ none)
    × (env.ctx_start ≡ none)
    × ((k : ℕ) → env.token_ctx k ≡ none)
    × ((content reason : Text) (usage : Usage)
        → (line : Text) × (env.final_line content reason usage ≡ ok line))

-- The request is admitted: its model is loaded, and a slot is free.
abbrev pub IsAdmitted : {W : Type 0} → InferEnv W → InferRequest → Manager → Manager → ℕ → Type 0
IsAdmitted env req m n ref =
    (is_empty (target_of env req m) ≡ false)
    × (k : Manager) × (ensure_instance env.ensure (target_of env req m) m ≡ some (k, none))
    × (begin_generation env.gen (target_of env req m) k ≡ (n, ok ref))

module _ {W : Type 0} (env : InferEnv W) (req : InferRequest) where
  -- The session of the server adapter for the request.
  abbrev pub session_of : GenerateEnv → ServerAdapter → Text → Session W
  session_of genv a path = server_session genv a path (params_of req) req.prompt

  serve_stream :
      (id : Text) (m : Manager) (w : W) (a : ServerAdapter) (x : Model)
      → env.ctx_start ≡ none
      → m.adapter ≡ server a
      → get_model_by_id id m.registry ≡ some x
      → is_empty (trim_space x.path) ≡ false
      → let r = stream env (env.session (trim_space x.path) (params_of req)) w in
        serve env req id m w ≡ some (r.0, record m { adapter = server a }, r.1)
  unfolding serve serve_model start_session started
  serve_stream id m w a x lives e known named = rw (e, known, named, lives) refl

  infer_admitted :
      (m n : Manager) (w : W) (ref : ℕ)
      → IsLive env
      → IsAdmitted env req m n ref
      → infer env req w m ≡ admitted env req (target_of env req m) w (n, ok ref)
  unfolding infer ensured admitted serve serve_model started start_session
  infer_admitted m n w ref (writes, lives, first, later, tokens, encodes)
        (named, k, loaded, begun) =
      rw (writes, lives, first, named, loaded, begun) refl

-- A call of Infer for a model that is loaded and has a free slot, over a server that answers it, returns
-- without an error; the slots are given back; and what has been written is a line for each content
-- that is not empty of the payloads before the done mark, and then the final line, with the last finish
-- reason that is not empty.
pub infer_served :
    {W : Type 0} (env : InferEnv W) (text : W → Text) (req : InferRequest) (m n : Manager) (w : W)
    (ref : ℕ) (a : ServerAdapter) (x : Model) (genv : GenerateEnv) (r : Reply)
    → IsOpen env text
    → IsLive env
    → IsAdmitted env req m n ref
    → n.adapter ≡ server a
    → get_model_by_id (target_of env req m) n.registry ≡ some x
    → is_empty (trim_space x.path) ≡ false
    → env.session (trim_space x.path) (params_of req)
      ≡ server_session genv a (trim_space x.path) (params_of req) req.prompt
    → Answers genv a (trim_space x.path) (params_of req) req.prompt r
    → (v : W) × (infer env req w m ≡ some (v, release ref (record n { adapter = server a }), none))
      × (text v
          ≡ text w
            ++ document env text
                (tokens genv.decoder (shown r))
                (final_of (last_reason genv.decoder [] (shown r))))
      × (v
          ≡ (stream env (server_session genv a (trim_space x.path) (params_of req) req.prompt) w).0)
unfolding admitted
infer_served env text req m n w ref a x genv r (contract, flush_keeps, takes) live_env ready e known
      named bound (made, posted, good, eof, plain) =
    let (writes, lives, first, later, live, encodes) = live_env in
    let path = trim_space x.path in
    let sess = server_session genv a path (params_of req) req.prompt in
    let (fine, whole) =
      server_session_succeeds env text contract flush_keeps takes live encodes genv a path
        (params_of req) req.prompt r w made posted good eof plain in
    (
      (stream env sess w).0,
      infer_admitted env req m n w ref live_env ready
          ∙ ap (released env ref) (
              serve_stream env req (target_of env req m) n w a x later e known named
              ∙ ap
                  (λ s.
                    some ((stream env s w).0, record n { adapter = server a }, (stream env s w).1))
                  bound
              ∙ ap (λ f. some ((stream env sess w).0, record n { adapter = server a }, f)) fine),
      whole,
      refl,
    )
