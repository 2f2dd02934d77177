-- ===== src/Generate/Sessions.antt =====
-- Infer with the session of the subprocess adapter (internal/manager/adapter_llama_subprocess.go and
-- inference.go).
use mathlib.Core.Path.{subst}
use modeld_go.Common.{
  ◌≡◌, sym, true, ◌&&◌, Option, none, List, [], ◌∷◌, ◌++◌, Text, pos, leb_ℤ, ltb_ℤ, arith,
}
use modeld_go.Errors.{Error, ok}
use modeld_go.Stream.{Lines, subprocess_read}
use modeld_go.Stream.Tokens.{payloads, frames, tokens, last_reason}
use modeld_go.Output.{Outcome, safe_flush}
use modeld_go.Output.Writing.{Wrote}
use modeld_go.Infer.{FinalResult, OnToken, Sink, InferEnv, InferParams, on_tok, finish, stream}
use modeld_go.Infer.Document.{Streamed, document}
use modeld_go.Infer.Streaming.{finish-Streamed}
use modeld_go.Generate.{
  GenerateEnv, Call, Reply, final_of, replied, generate, read_subprocess, subprocess_call,
  subprocess_session,
}
use modeld_go.Generate.Reading.{Goes, read_lines-Goes}

-- The payloads of a response before the done mark.
abbrev pub shown : Reply → List Text
shown r = frames (payloads (r.lines.lines ++ r.lines.rest ∷ []))

-- A request that is made and answered with a status of success.
pub answered :
    {W : Type 0} (genv : GenerateEnv)
    (read : OnToken W → Lines → Sink W → Sink W × Outcome (FinalResult × Option Error))
    (call : Call) (r : Reply) (tok : OnToken W) (s : Sink W)
    → genv.make_request call.url ≡ none
    → genv.post call ≡ ok r
    → leb_ℤ (pos 200) r.code && ltb_ℤ r.code (pos 300) ≡ true
    → generate genv read call tok s ≡ read tok r.lines s
unfolding generate replied
answered genv read call r tok s made posted good = ground arith

-- What the reading of a response streams.
pub read-Streamed :
    {W : Type 0} (env : InferEnv W) (text : W → Text)
    → ((p : Text) (w : W) → Wrote text p w (env.write p w))
    → ((w : W) → text (safe_flush env.flush w) ≡ text w)
    → (genv : GenerateEnv) (r : Reply) (w : W)
    → Streamed env text
        (document env text
          (tokens genv.decoder (shown r))
          (final_of (last_reason genv.decoder [] (shown r))))
        w
        (finish env (
          read_subprocess genv (on_tok env) r.lines (record { writer = w; built = []; count = 0 })))
unfolding read_subprocess subprocess_read Goes
read-Streamed env text contract flush_keeps genv r w =
    finish-Streamed env text contract flush_keeps (tokens genv.decoder (shown r))
      (final_of (last_reason genv.decoder [] (shown r))) w
      (read_subprocess genv (on_tok env) r.lines (record { writer = w; built = []; count = 0 }))
      (read_lines-Goes env text contract flush_keeps genv.decoder genv.ctx_read r.lines.ending
        r.lines.rest r.lines.lines [] (record { writer = w; built = []; count = 0 }))

-- Infer with the session of the subprocess adapter, if the request is made and the response has a status
-- from 200 to 299: with no error, a line has been written for each content that is not empty of the
-- payloads before the done mark, and then the final line, with the last finish reason that is not empty;
-- with an error, a front part of that. The writer keeps the contract of io.Writer, and flushing adds
-- nothing.
pub subprocess_session-Streamed :
    {W : Type 0} (env : InferEnv W) (text : W → Text)
    → ((p : Text) (w : W) → Wrote text p w (env.write p w))
    → ((w : W) → text (safe_flush env.flush w) ≡ text w)
    → (genv : GenerateEnv) (base_url : Text) (params : InferParams) (prompt : Text) (r : Reply)
      (w : W)
    → genv.make_request (subprocess_call base_url params prompt).url ≡ none
    → genv.post (subprocess_call base_url params prompt) ≡ ok r
    → leb_ℤ (pos 200) r.code && ltb_ℤ r.code (pos 300) ≡ true
    → Streamed env text
        (document env text
          (tokens genv.decoder (shown r))
          (final_of (last_reason genv.decoder [] (shown r))))
        w
        (stream env (subprocess_session genv base_url params prompt) w)
unfolding stream subprocess_session
subprocess_session-Streamed env text contract flush_keeps genv base_url params prompt r w made
      posted good =
    subst
      (λ x.
        Streamed env text
          (document env text (tokens genv.decoder (shown r))
            (final_of (last_reason genv.decoder [] (shown r))))
          w (finish env x))
      (sym (
        answered genv (read_subprocess genv) (subprocess_call base_url params prompt) r (on_tok env)
          (record { writer = w; built = []; count = 0 }) made posted good))
      (read-Streamed env text contract flush_keeps genv r w)
