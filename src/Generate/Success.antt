-- ===== src/Generate/Success.antt =====
-- When a stream is read to its end by the sessions of both adapters (internal/manager/adapter_llama_server.go
-- and adapter_llama_subprocess.go), within Infer.
use mathlib.Core.Path.{subst}
use modeld_go.Common.{
  ℕ, ◌≡◌, sym, ap, true, ◌&&◌, Option, none, some, [], ◌++◌, Text, trim_space, ◌∙◌, pos, leb_ℤ,
  ltb_ℤ,
}
use modeld_go.Errors.{Error, ok}
use modeld_go.Stream.{Lines, Ended, server_read, subprocess_read}
use modeld_go.Stream.Tokens.{tokens, last_reason}
use modeld_go.Stream.Agreement.{read_agreement}
use modeld_go.Output.{Outcome, safe_flush}
use modeld_go.Output.Writing.{Wrote}
use modeld_go.Infer.{FinalResult, Usage, Sink, InferEnv, InferParams, on_tok, finish, stream}
use modeld_go.Infer.Document.{Streamed, document}
use modeld_go.Infer.Success.{Takes, on_tok_succeeds, finish_succeeds}
use modeld_go.Server.{ServerAdapter}
use modeld_go.Generate.{
  GenerateEnv, Reply, Heard, final_of, guarded, closed, read_subprocess, read_server,
  subprocess_call, server_call, subprocess_session, server_session,
}
use modeld_go.Generate.Sessions.{shown, answered, read-Streamed, subprocess_session-Streamed}
use modeld_go.Generate.Fine.{FineEnd, subprocess_fine, server_fine, lines_fine}

module _ {W : Type 0} (env : InferEnv W) (takes : Takes env.write)
    (live : (k : ℕ) → env.token_ctx k ≡ none)
    (encodes : (content reason : Text) (usage : Usage)
      → (line : Text) × (env.final_line content reason usage ≡ ok line)) where
  -- After a stream that was read to its end.
  closed_succeeds : (r : Ended (Heard W)) → FineEnd r → (finish env (closed r)).1 ≡ none
  unfolding closed
  closed_succeeds ((s, none), reason, none) h =
      finish_succeeds env takes encodes s (final_of reason)
  closed_succeeds ((s, none), reason, some e) h = absurd h
  closed_succeeds ((s, some why), reason, e) h = absurd h

  subprocess_succeeds :
      (genv : GenerateEnv) (l : Lines) (s : Sink W)
      → l.ending ≡ none
      → (finish env (read_subprocess genv (on_tok env) l s)).1 ≡ none
  unfolding read_subprocess subprocess_read
  subprocess_succeeds genv l s eof = rw eof (
      closed_succeeds _ (
        lines_fine _ (subprocess_fine (on_tok env) (on_tok_succeeds env takes live) genv.decoder)
          genv.ctx_read l.rest l.lines [] s))

  server_succeeds :
      (genv : GenerateEnv) (l : Lines) (s : Sink W)
      → l.ending ≡ none
      → (finish env (read_server genv (on_tok env) l s)).1 ≡ none
  unfolding read_server server_read
  server_succeeds genv l s eof = rw eof (
      closed_succeeds _ (
        lines_fine _ (server_fine (on_tok env) (on_tok_succeeds env takes live) genv.decoder)
          genv.ctx_read l.rest l.lines [] s))

  subprocess_session_ends :
      (genv : GenerateEnv) (base_url : Text) (params : InferParams) (prompt : Text) (r : Reply)
      (w : W)
      → genv.make_request (subprocess_call base_url params prompt).url ≡ none
      → genv.post (subprocess_call base_url params prompt) ≡ ok r
      → leb_ℤ (pos 200) r.code && ltb_ℤ r.code (pos 300) ≡ true
      → r.lines.ending ≡ none
      → (stream env (subprocess_session genv base_url params prompt) w).1 ≡ none
  unfolding stream subprocess_session
  subprocess_session_ends genv base_url params prompt r w made posted good eof =
      ap (λ x. (finish env x).1)
        (answered genv (read_subprocess genv) (subprocess_call base_url params prompt) r
          (on_tok env) (record { writer = w; built = []; count = 0 }) made posted good)
      ∙ subprocess_succeeds genv r.lines (record { writer = w; built = []; count = 0 }) eof

  server_session_ends :
      (genv : GenerateEnv) (a : ServerAdapter) (path : Text) (params : InferParams) (prompt : Text)
      (r : Reply) (w : W)
      → genv.make_request (server_call a (trim_space path) params prompt).url ≡ none
      → genv.post (server_call a (trim_space path) params prompt) ≡ ok r
      → leb_ℤ (pos 200) r.code && ltb_ℤ r.code (pos 300) ≡ true
      → r.lines.ending ≡ none
      → (stream env (server_session genv a path params prompt) w).1 ≡ none
  unfolding stream server_session
  server_session_ends genv a path params prompt r w made posted good eof =
      ap (λ x. (finish env x).1)
        (answered genv (read_server genv) (server_call a (trim_space path) params prompt) r
          (on_tok env) (record { writer = w; built = []; count = 0 }) made posted good)
      ∙ server_succeeds genv r.lines (record { writer = w; built = []; count = 0 }) eof

whole :
    {W : Type 0} (env : InferEnv W) (text : W → Text) (p : Text) (w : W) (r : W × Option Error)
    → Streamed env text p w r
    → r.1 ≡ none
    → text r.0 ≡ text w ++ p
whole env text p w (w', none) streamed h = streamed
whole env text p w (w', some e) streamed h = cc

-- The same for a document that the reading of a response streams.
whole_document :
    {W : Type 0} (env : InferEnv W) (text : W → Text)
    → ((p : Text) (w : W) → Wrote text p w (env.write p w))
    → ((w : W) → text (safe_flush env.flush w) ≡ text w)
    → (genv : GenerateEnv) (r : Reply) (w : W) (x : Sink W × Outcome (FinalResult × Option Error))
    → x ≡ read_subprocess genv (on_tok env) r.lines (record { writer = w; built = []; count = 0 })
    → (finish env x).1 ≡ none
    → text (finish env x).0
      ≡ text w
        ++ document env text
            (tokens genv.decoder (shown r))
            (final_of (last_reason genv.decoder [] (shown r)))
whole_document env text contract flush_keeps genv r w x e ended =
    whole env text _ w (finish env x)
      (subst
        (λ y.
          Streamed env text
            (document env text (tokens genv.decoder (shown r))
              (final_of (last_reason genv.decoder [] (shown r))))
            w (finish env y))
        (sym e) (read-Streamed env text contract flush_keeps genv r w))
      ended

-- Infer with the session of the server adapter, if the request is made, the response has a status from 200 to
-- 299 and its stream ends with io.EOF, no payload of it is a plain object with a text for its content, the
-- context lasts, the writer takes some of whatever it is given, and the final line can be encoded: there is no
-- error, and what has been written is a line for each content that is not empty of the payloads before the done
-- mark, and then the final line, with the last finish reason that is not empty. The writer keeps the contract of
-- io.Writer, and flushing adds nothing.
pub server_session_succeeds :
    {W : Type 0} (env : InferEnv W) (text : W → Text)
    → ((p : Text) (w : W) → Wrote text p w (env.write p w))
    → ((w : W) → text (safe_flush env.flush w) ≡ text w)
    → Takes env.write
    → ((k : ℕ) → env.token_ctx k ≡ none)
    → ((content reason : Text) (usage : Usage)
        → (line : Text) × (env.final_line content reason usage ≡ ok line))
    → (genv : GenerateEnv) (a : ServerAdapter) (path : Text) (params : InferParams) (prompt : Text)
      (r : Reply) (w : W)
    → genv.make_request (server_call a (trim_space path) params prompt).url ≡ none
    → genv.post (server_call a (trim_space path) params prompt) ≡ ok r
    → leb_ℤ (pos 200) r.code && ltb_ℤ r.code (pos 300) ≡ true
    → r.lines.ending ≡ none
    → ((p : Text) → genv.decoder.choice p ≡ none → genv.decoder.content p ≡ none)
    → ((stream env (server_session genv a path params prompt) w).1 ≡ none)
      × (text (stream env (server_session genv a path params prompt) w).0
          ≡ text w
            ++ document env text
                (tokens genv.decoder (shown r))
                (final_of (last_reason genv.decoder [] (shown r))))
unfolding stream server_session read_server read_subprocess
server_session_succeeds env text contract flush_keeps takes live encodes genv a path params prompt r
      w made posted good eof plain =
    let ended =
      server_session_ends env takes live encodes genv a path params prompt r w made posted good
        eof in
    (
      ended,
      whole_document env text contract flush_keeps genv r w _
          (answered genv (read_server genv) (server_call a (trim_space path) params prompt) r
              (on_tok env) (record { writer = w; built = []; count = 0 }) made posted good
            ∙ ap closed (
                read_agreement (guarded (on_tok env)) genv.decoder genv.ctx_read r.lines
                  (record { writer = w; built = []; count = 0 }, none) plain))
          ended,
    )

-- Infer with the session of the subprocess adapter, if the request is made, the response has a status from 200 to
-- 299 and its stream ends with io.EOF, the context lasts, the writer takes some of whatever it is given, and the
-- final line can be encoded: there is no error, and what has been written is a line for each content that is not
-- empty of the payloads before the done mark, and then the final line, with the last finish reason that is not
-- empty. The writer keeps the contract of io.Writer, and flushing adds nothing.
pub subprocess_session_succeeds :
    {W : Type 0} (env : InferEnv W) (text : W → Text)
    → ((p : Text) (w : W) → Wrote text p w (env.write p w))
    → ((w : W) → text (safe_flush env.flush w) ≡ text w)
    → Takes env.write
    → ((k : ℕ) → env.token_ctx k ≡ none)
    → ((content reason : Text) (usage : Usage)
        → (line : Text) × (env.final_line content reason usage ≡ ok line))
    → (genv : GenerateEnv) (base_url : Text) (params : InferParams) (prompt : Text) (r : Reply)
      (w : W)
    → genv.make_request (subprocess_call base_url params prompt).url ≡ none
    → genv.post (subprocess_call base_url params prompt) ≡ ok r
    → leb_ℤ (pos 200) r.code && ltb_ℤ r.code (pos 300) ≡ true
    → r.lines.ending ≡ none
    → ((stream env (subprocess_session genv base_url params prompt) w).1 ≡ none)
      × (text (stream env (subprocess_session genv base_url params prompt) w).0
          ≡ text w
            ++ document env text
                (tokens genv.decoder (shown r))
                (final_of (last_reason genv.decoder [] (shown r))))
subprocess_session_succeeds env text contract flush_keeps takes live encodes genv base_url params
      prompt r w made posted good eof =
    let ended =
      subprocess_session_ends env takes live encodes genv base_url params prompt r w made posted
        good eof in
    (
      ended,
      whole env text _ w (stream env (subprocess_session genv base_url params prompt) w)
          (subprocess_session-Streamed env text contract flush_keeps genv base_url params prompt r w
            made posted good)
          ended,
    )
